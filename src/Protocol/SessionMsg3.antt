-- ===== src/Protocol/SessionMsg3.antt =====
-- fips/src/protocol/session.rs: `SessionMsg3`, the third message of the XK handshake.
use fips_native.Base.{ℕ, ◌<◌, ◌≡◌, ◌≢◌, arith, List, [], ◌∷◌, length, drop}
use fips_native.Codec.Reader.{
  message_too_short, Outcome, ok, err, panic, Reader, ◌>>=◌, pure, result, u8,
}
use fips_native.Codec.Safety.{Safe, u8-Takes, pure-Safe, Safe-bind, Safe-then, result-ne-panic}
use fips_native.Protocol.Handshake.{
  u16_max, encode_payload, decode_payload, with_prefix, payload_written, decode_payload-Safe,
}

pub record SessionMsg3 : Type 0 where
  pub flags : ℕ
  pub handshake_payload : List ℕ

unfoldable pub new : List ℕ → SessionMsg3
new p = record { flags = 0; handshake_payload = p }

unfoldable pub encode_body : SessionMsg3 → List ℕ
encode_body m = m.flags ∷ encode_payload m.handshake_payload

unfoldable pub encode : SessionMsg3 → List ℕ
unfolding encode_body with_prefix
encode m = with_prefix 0x03 (encode_body m)

body : ℕ → Reader SessionMsg3
body total = do
  flags ← u8
  p ← decode_payload total
  pure (record { flags = flags; handshake_payload = p })

unfoldable pub decode : List ℕ → Outcome SessionMsg3
unfolding body u8
decode [] = err (message_too_short 1 0)
decode (b ∷ more) = result (body (length (b ∷ more)) (b ∷ more))

-- A SessionMsg3 with a payload that fits its count is decoded back, less its prefix.
pub decode-encode_session_msg3 :
    (m : SessionMsg3) → length m.handshake_payload < u16_max → decode (drop 4 (encode m)) ≡ ok m
unfolding decode encode
decode-encode_session_msg3 m v =
    simp (◌>>=◌, payload_written (length (encode_body m)) m.handshake_payload v)

-- `decode` panics on no input.
decode_session_msg3-ne-panic : (p : List ℕ) → decode p ≢ panic
unfolding decode
decode_session_msg3-ne-panic [] = λ e. cc
decode_session_msg3-ne-panic (b ∷ more) =
    result-ne-panic (body (length (b ∷ more)) (b ∷ more))
      (body-Safe (length (b ∷ more)) (b ∷ more) (omega arith))
  where
    body-Safe : (total : ℕ) → Safe 1 (body total)
    body-Safe total =
        Safe-bind 1 0 u8 _ u8-Takes
          λ flags. Safe-then (decode_payload total) _ (decode_payload-Safe total) λ p. pure-Safe _
