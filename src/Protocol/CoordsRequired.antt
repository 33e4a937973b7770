-- ===== src/Protocol/CoordsRequired.antt =====
-- fips/src/protocol/session.rs: the error signal `CoordsRequired`.
-- The FSP prefix (4 bytes) and the message type are stripped before `decode`.
use fips_native.Base.{
  ℕ, ◌≡◌, ◌≢◌, inl, inr, arith, List, [], ◌∷◌, ◌++◌, refl, ltb, if◌then◌else◌, length, drop, le→ltb,
  Bool-cases, ltb-false→le, replicate,
}
use fips_native.Codec.Bytes.{as_bytes, IsNodeAddr, length_uint, length_addr, u16_bytes}
use fips_native.Codec.Reader.{
  message_too_short, Outcome, ok, err, panic, Reader, ◌>>=◌, ◌>>◌, pure, result, bytes, u8, addr,
  rest, bytes_written, addr_written,
}
use fips_native.Codec.Safety.{Safe, bytes-Takes, addr-Takes, pure-Safe, Safe-bind, result-ne-panic}
use fips_native.Protocol.SessionMessage.{to_byte, coords_required}

pub record CoordsRequired : Type 0 where
  pub dest_addr : ℕ
  pub reporter : ℕ

-- The ranges of the field types.
pub record IsCoordsRequired (m : CoordsRequired) : Type 0 where
  pub dest_addr : IsNodeAddr m.dest_addr
  pub reporter : IsNodeAddr m.reporter

unfoldable pub encode : CoordsRequired → List ℕ
encode m =
    0x00
    ∷ 0x04
    ∷ (u16_bytes 34
        ++ (to_byte coords_required
            ∷ (replicate 1 0 ++ (as_bytes m.dest_addr ++ (as_bytes m.reporter ++ [])))))

body : Reader CoordsRequired
body = do
  bytes 1
  dest_addr ← addr
  reporter ← addr
  pure (record { dest_addr = dest_addr; reporter = reporter })

unfoldable pub decode : List ℕ → Outcome CoordsRequired
unfolding body
decode payload =
    if ltb (length payload) 33
    then err (message_too_short 33 (length payload))
    else result (body payload)

-- `decode` gives back what `encode` wrote, behind the bytes that the dispatcher strips.
decode-encode_coords_required :
    (m : CoordsRequired) → IsCoordsRequired m → decode (drop 5 (encode m)) ≡ ok m
unfolding decode encode u8 rest
decode-encode_coords_required m v =
    rw (le→ltb (length (drop 5 (encode m))) 33 (omega (arith, length_uint, length_addr))) (
      simp (
        ◌>>=◌,
        bytes_written 1 (replicate 1 0) refl,
        addr_written m.dest_addr v.dest_addr,
        addr_written m.reporter v.reporter,
      ))

body-Safe : Safe 33 body
unfolding body
body-Safe = Safe-bind 1 32 (bytes 1) _ (bytes-Takes 1) λ _.
    Safe-bind 16 16 addr _ addr-Takes
      λ dest_addr. Safe-bind 16 0 addr _ addr-Takes λ reporter. pure-Safe _

-- `decode` panics on no input.
decode_coords_required-ne-panic : (p : List ℕ) → decode p ≢ panic
unfolding decode
decode_coords_required-ne-panic p = elim (Bool-cases (ltb (length p) 33)) [
  | inl short ↦ rw short (λ e. cc)
  | inr enough ↦
      rw enough
        (result-ne-panic (body p) (body-Safe p (omega (arith, ltb-false→le (length p) 33 enough))))
]
