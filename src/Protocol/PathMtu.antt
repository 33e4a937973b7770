-- ===== src/Protocol/PathMtu.antt =====
-- fips/src/protocol/session.rs: `PathMtuNotification`.
use fips_native.Base.{
  ℕ, ◌^◌, ◌<◌, ◌≡◌, ◌≢◌, inl, inr, arith, List, [], ◌++◌, ltb, if◌then◌else◌, length, drop, le→ltb,
  Bool-cases, ltb-false→le,
}
use fips_native.Codec.Bytes.{le_bytes, length_uint, length_addr}
use fips_native.Codec.Reader.{
  message_too_short, Outcome, ok, err, panic, Reader, ◌>>=◌, pure, result, u8, uint, rest,
  uint_written,
}
use fips_native.Codec.Safety.{Safe, uint-Takes, pure-Safe, Safe-bind, result-ne-panic}

pub record PathMtuNotification : Type 0 where
  pub path_mtu : ℕ

-- The ranges of the field types.
pub record IsPathMtuNotification (m : PathMtuNotification) : Type 0 where
  pub path_mtu : m.path_mtu < 256 ^ 2

unfoldable pub encode : PathMtuNotification → List ℕ
encode m = le_bytes 2 m.path_mtu ++ []

body : Reader PathMtuNotification
body = do path_mtu ← uint 2; pure (record { path_mtu = path_mtu })

unfoldable pub decode : List ℕ → Outcome PathMtuNotification
unfolding body
decode payload =
    if ltb (length payload) 2
    then err (message_too_short 2 (length payload))
    else result (body payload)

-- `decode` gives back what `encode` wrote, behind the bytes that the dispatcher strips.
decode-encode_path_mtu :
    (m : PathMtuNotification) → IsPathMtuNotification m → decode (encode m) ≡ ok m
unfolding decode encode u8 rest
decode-encode_path_mtu m v =
    rw (le→ltb (length (drop 0 (encode m))) 2 (omega (arith, length_uint, length_addr)))
      (simp (◌>>=◌, uint_written 2 m.path_mtu v.path_mtu))

body-Safe : Safe 2 body
unfolding body
body-Safe = Safe-bind 2 0 (uint 2) _ (uint-Takes 2) λ path_mtu. pure-Safe _

-- `decode` panics on no input.
decode_path_mtu-ne-panic : (p : List ℕ) → decode p ≢ panic
unfolding decode
decode_path_mtu-ne-panic p = elim (Bool-cases (ltb (length p) 2)) [
  | inl short ↦ rw short (λ e. cc)
  | inr enough ↦
      rw enough
        (result-ne-panic (body p) (body-Safe p (omega (arith, ltb-false→le (length p) 2 enough))))
]
