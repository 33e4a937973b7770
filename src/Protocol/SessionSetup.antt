-- ===== src/Protocol/SessionSetup.antt =====
-- fips/src/protocol/session.rs: `SessionSetup`.
use fips_native.Base.{ℕ, ◌<◌, ◌≡◌, ◌≢◌, arith, List, [], ◌∷◌, ◌++◌, length, drop, false}
use fips_native.Codec.Reader.{
  message_too_short, Outcome, ok, err, panic, Reader, ◌>>=◌, pure, result, u8,
}
use fips_native.Codec.Safety.{Safe, u8-Takes, pure-Safe, Safe-bind, Safe-then, result-ne-panic}
use fips_native.Tree.Coordinate.{TreeCoordinate}
use fips_native.Protocol.Coords.{
  encode_coords, decode_coords, without_meta, IsWireCoordinate, coords_written, decode_coords-Safe,
}
use fips_native.Protocol.SessionFlags.{
  SessionFlags, to_byte, from_byte, from_byte-to_byte_session_flags,
}
use fips_native.Protocol.Handshake.{
  u16_max, encode_payload, decode_payload, with_prefix, payload_written, decode_payload-Safe,
}

pub record SessionSetup : Type 0 where
  pub src_coords : TreeCoordinate
  pub dest_coords : TreeCoordinate
  pub flags : SessionFlags
  pub handshake_payload : List ℕ

unfoldable pub new : TreeCoordinate → TreeCoordinate → SessionSetup
new src dest = record {
  src_coords = src;
  dest_coords = dest;
  flags = record { request_ack = false; bidirectional = false };
  handshake_payload = [];
}

unfoldable pub encode_body : SessionSetup → List ℕ
encode_body m =
    to_byte m.flags
    ∷ (encode_coords m.src_coords
        ++ (encode_coords m.dest_coords ++ encode_payload m.handshake_payload))

-- The first byte of the prefix: version 0, phase 1.
unfoldable pub encode : SessionSetup → List ℕ
unfolding encode_body with_prefix
encode m = with_prefix 0x01 (encode_body m)

body : ℕ → Reader SessionSetup
body total = do
  flags ← u8
  src ← decode_coords
  dest ← decode_coords
  p ← decode_payload total
  pure (record {
    src_coords = src;
    dest_coords = dest;
    flags = from_byte flags;
    handshake_payload = p;
  })

unfoldable pub decode : List ℕ → Outcome SessionSetup
unfolding body u8
decode [] = err (message_too_short 1 0)
decode (b ∷ more) = result (body (length (b ∷ more)) (b ∷ more))

-- The parts fit their length fields.
pub record IsSessionSetup (m : SessionSetup) : Type 0 where
  pub src : IsWireCoordinate m.src_coords
  pub dest : IsWireCoordinate m.dest_coords
  pub payload : length m.handshake_payload < u16_max

-- A SessionSetup with a payload and paths that fit their counts is decoded back, less its
-- prefix; its coordinates keep their addresses only.
pub decode-encode_session_setup :
    (m : SessionSetup)
    → IsSessionSetup m
    → decode (drop 4 (encode m))
      ≡ ok (record m {
        src_coords = without_meta m.src_coords;
        dest_coords = without_meta m.dest_coords;
      })
unfolding decode encode
decode-encode_session_setup m v =
    let total = length (encode_body m) in
    simp (
      ◌>>=◌,
      coords_written m.src_coords v.src,
      coords_written m.dest_coords v.dest,
      payload_written total m.handshake_payload v.payload,
      (from_byte-to_byte_session_flags m.flags).0,
    )

-- `decode` of a SessionSetup panics on no input.
pub decode_session_setup-ne-panic : (p : List ℕ) → decode p ≢ panic
unfolding decode
decode_session_setup-ne-panic [] = λ e. cc
decode_session_setup-ne-panic (b ∷ more) =
    result-ne-panic (body (length (b ∷ more)) (b ∷ more))
      (body-Safe (length (b ∷ more)) (b ∷ more) (omega arith))
  where
    body-Safe : (total : ℕ) → Safe 1 (body total)
    body-Safe total = Safe-bind 1 0 u8 _ u8-Takes λ flags.
        Safe-then decode_coords _ decode_coords-Safe λ src.
          Safe-then decode_coords _ decode_coords-Safe
            λ dest. Safe-then (decode_payload total) _ (decode_payload-Safe total) λ p. pure-Safe _
