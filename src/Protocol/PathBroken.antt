-- ===== src/Protocol/PathBroken.antt =====
-- fips/src/protocol/session.rs: the error signal `PathBroken`, with the last known coordinates.
-- The FSP prefix (4 bytes) and the message type are stripped before `decode`.
use fips_native.Base.{
  ℕ, ◌%◌, ◌^◌, ◌≤◌, ◌≡◌, ◌≢◌, inl, inr, arith, List, [], ◌∷◌, ◌++◌, Option, none, some, ltb,
  if◌then◌else◌, length, length-append, drop, le→ltb, ltb-false→le, Bool-cases,
}
use fips_native.Codec.Bytes.{as_bytes, IsNodeAddr, length_addr, length-le_bytes, u16_bytes}
use fips_native.Codec.Reader.{
  message_too_short, Outcome, ok, err, panic, Reader, ◌>>=◌, pure, result, u8, addr, addr_written,
}
use fips_native.Codec.Safety.{
  Safe, u8-Takes, addr-Takes, pure-Safe, Safe-bind, Safe-then, result-ne-panic,
}
use fips_native.Tree.Coordinate.{TreeCoordinate}
use fips_native.Protocol.Coords.{
  encode_coords, encode_empty_coords, decode_optional_coords, without_meta, IsWireCoordinate,
  coords_wire_size, length-encode_coords, optional_coords_written, empty_coords_written,
  decode_optional_coords-Safe,
}
use fips_native.Protocol.SessionMessage.{to_byte, path_broken}

pub record PathBroken : Type 0 where
  pub dest_addr : ℕ
  pub reporter : ℕ
  pub last_known_coords : Option TreeCoordinate

unfoldable pub new : ℕ → ℕ → PathBroken
new dest reporter = record { dest_addr = dest; reporter = reporter; last_known_coords = none }

unfoldable pub encode_last : Option TreeCoordinate → List ℕ
encode_last none = encode_empty_coords
encode_last (some c) = encode_coords c

unfoldable pub encode_body : PathBroken → List ℕ
encode_body m =
    to_byte path_broken
    ∷ 0x00
    ∷ (as_bytes m.dest_addr ++ (as_bytes m.reporter ++ (encode_last m.last_known_coords ++ [])))

unfoldable pub encode : PathBroken → List ℕ
unfolding encode_body
encode m = 0x00 ∷ 0x04 ∷ (u16_bytes (length (encode_body m) % 2 ^ 16) ++ encode_body m)

body : Reader PathBroken
body = do
  flags ← u8
  dest ← addr
  reporter ← addr
  c ← decode_optional_coords
  pure (record { dest_addr = dest; reporter = reporter; last_known_coords = c })

unfoldable pub decode : List ℕ → Outcome PathBroken
unfolding body u8
decode payload =
    if ltb (length payload) 35
    then err (message_too_short 35 (length payload))
    else result (body payload)

abbrev IsWireOption : Option TreeCoordinate → Type 0
IsWireOption none = Unit
IsWireOption (some c) = IsWireCoordinate c

abbrev without_meta? : Option TreeCoordinate → Option TreeCoordinate
without_meta? none = none
without_meta? (some c) = some (without_meta c)

-- The addresses are 16 bytes, and the coordinates fit the wire format.
pub record IsPathBroken (m : PathBroken) : Type 0 where
  pub dest : IsNodeAddr m.dest_addr
  pub reporter : IsNodeAddr m.reporter
  pub coords : IsWireOption m.last_known_coords

last_written :
    (o : Option TreeCoordinate)
    → IsWireOption o
    → (ys : List ℕ) → decode_optional_coords (encode_last o ++ ys) ≡ ok (without_meta? o, ys)
unfolding encode_last
last_written none v ys = empty_coords_written ys
last_written (some c) v ys = optional_coords_written c v ys

last-length : (o : Option TreeCoordinate) → 2 ≤ length (encode_last o)
unfolding encode_last encode_empty_coords
last-length none = omega (arith, length-le_bytes 2 0)
last-length (some c) = rw (length-encode_coords c) (unfold coords_wire_size in omega arith)

-- A PathBroken with fields in range is decoded back, less its prefix and type; its coordinates
-- keep their addresses only.
pub decode-encode_path_broken :
    (m : PathBroken)
    → IsPathBroken m
    → decode (drop 5 (encode m))
      ≡ ok (record m { last_known_coords = without_meta? m.last_known_coords })
unfolding decode encode
decode-encode_path_broken m v =
    rw
      (le→ltb (length (drop 5 (encode m))) 35 (
        omega (
          arith,
          length_addr,
          length-append (encode_last m.last_known_coords) [],
          last-length m.last_known_coords,
        )))
      (simp (
        ◌>>=◌,
        addr_written m.dest_addr v.dest,
        addr_written m.reporter v.reporter,
        last_written m.last_known_coords v.coords,
      ))

-- `decode` of a PathBroken panics on no input.
pub decode_path_broken-ne-panic : (p : List ℕ) → decode p ≢ panic
unfolding decode
decode_path_broken-ne-panic p = elim (Bool-cases (ltb (length p) 35)) [
  | inl short ↦ rw short (λ e. cc)
  | inr enough ↦
      rw enough
        (result-ne-panic (body p) (body-Safe p (omega (arith, ltb-false→le (length p) 35 enough))))
]
  where
    body-Safe : Safe 33 body
    body-Safe = Safe-bind 1 32 u8 _ u8-Takes λ flags. Safe-bind 16 16 addr _ addr-Takes λ dest.
        Safe-bind 16 0 addr _ addr-Takes λ reporter.
          Safe-then decode_optional_coords _ decode_optional_coords-Safe λ c. pure-Safe _
