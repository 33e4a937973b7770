-- ===== src/Protocol/MtuExceeded.antt =====
-- fips/src/protocol/session.rs: the error signal `MtuExceeded`.
-- The FSP prefix (4 bytes) and the message type are stripped before `decode`.
use fips_native.Base.{
  ℕ, ◌^◌, ◌<◌, ◌≡◌, ◌≢◌, inl, inr, arith, List, [], ◌∷◌, ◌++◌, refl, ltb, if◌then◌else◌, length,
  drop, le→ltb, Bool-cases, ltb-false→le, replicate,
}
use fips_native.Codec.Bytes.{le_bytes, as_bytes, IsNodeAddr, length_uint, length_addr, u16_bytes}
use fips_native.Codec.Reader.{
  message_too_short, Outcome, ok, err, panic, Reader, ◌>>=◌, ◌>>◌, pure, result, bytes, u8, uint,
  addr, rest, bytes_written, uint_written, addr_written,
}
use fips_native.Codec.Safety.{
  Safe, bytes-Takes, uint-Takes, addr-Takes, pure-Safe, Safe-bind, result-ne-panic,
}
use fips_native.Protocol.SessionMessage.{to_byte, mtu_exceeded}

pub record MtuExceeded : Type 0 where
  pub dest_addr : ℕ
  pub reporter : ℕ
  pub mtu : ℕ

-- The ranges of the field types.
pub record IsMtuExceeded (m : MtuExceeded) : Type 0 where
  pub dest_addr : IsNodeAddr m.dest_addr
  pub reporter : IsNodeAddr m.reporter
  pub mtu : m.mtu < 256 ^ 2

unfoldable pub encode : MtuExceeded → List ℕ
encode m =
    0x00
    ∷ 0x04
    ∷ (u16_bytes 36
        ++ (to_byte mtu_exceeded
            ∷ (replicate 1 0
                ++ (as_bytes m.dest_addr ++ (as_bytes m.reporter ++ (le_bytes 2 m.mtu ++ []))))))

body : Reader MtuExceeded
body = do
  bytes 1
  dest_addr ← addr
  reporter ← addr
  mtu ← uint 2
  pure (record { dest_addr = dest_addr; reporter = reporter; mtu = mtu })

unfoldable pub decode : List ℕ → Outcome MtuExceeded
unfolding body
decode payload =
    if ltb (length payload) 35
    then err (message_too_short 35 (length payload))
    else result (body payload)

-- `decode` gives back what `encode` wrote, behind the bytes that the dispatcher strips.
decode-encode_mtu_exceeded : (m : MtuExceeded) → IsMtuExceeded m → decode (drop 5 (encode m)) ≡ ok m
unfolding decode encode u8 rest
decode-encode_mtu_exceeded m v =
    rw (le→ltb (length (drop 5 (encode m))) 35 (omega (arith, length_uint, length_addr))) (
      simp (
        ◌>>=◌,
        bytes_written 1 (replicate 1 0) refl,
        addr_written m.dest_addr v.dest_addr,
        addr_written m.reporter v.reporter,
        uint_written 2 m.mtu v.mtu,
      ))

body-Safe : Safe 35 body
unfolding body
body-Safe = Safe-bind 1 34 (bytes 1) _ (bytes-Takes 1) λ _.
    Safe-bind 16 18 addr _ addr-Takes λ dest_addr.
      Safe-bind 16 2 addr _ addr-Takes
        λ reporter. Safe-bind 2 0 (uint 2) _ (uint-Takes 2) λ mtu. pure-Safe _

-- `decode` panics on no input.
decode_mtu_exceeded-ne-panic : (p : List ℕ) → decode p ≢ panic
unfolding decode
decode_mtu_exceeded-ne-panic p = elim (Bool-cases (ltb (length p) 35)) [
  | inl short ↦ rw short (λ e. cc)
  | inr enough ↦
      rw enough
        (result-ne-panic (body p) (body-Safe p (omega (arith, ltb-false→le (length p) 35 enough))))
]
