-- ===== src/Protocol/Coords/Laws.antt =====
-- The decoders give back what the encoder wrote, and panic on no input.
use fips_native.Base.{
  ℕ, zero, suc, ◌+◌, ◌*◌, ◌%◌, ◌^◌, ◌≤◌, ◌≡◌, ◌≢◌, refl, ap, ◌∙◌, inl, inr, arith, List, [], ◌∷◌,
  ◌++◌, none, some, ltb, ◌==◌, length, length-append, length-map, All, false, append_assoc, le→ltb,
  ltb-false→le, Bool-cases,
}
use fips_native.Codec.Bytes.{le_bytes, as_bytes, IsNodeAddr, length_uint, length_addr}
use fips_native.Codec.Reader.{ok, panic, ◌>>=◌, pure, uint, uint_written, addr_written}
use fips_native.Codec.Safety.{Takes, Safe, uint-Takes, addr-Takes}
use fips_native.Tree.Coordinate.{TreeCoordinate, node_addrs, from_addrs}
use fips_native.Protocol.Coords.Defs.{
  encode_addrs, encode_coords, encode_empty_coords, coords_wire_size, read_addrs, coords_of,
  read_coords, decode_coords, read_optional_coords, decode_optional_coords, without_meta,
  IsWireCoordinate,
}
use native.Mathlib.Nat.{mod-eq_of_lt}

length-encode_addrs : (l : List ℕ) → length (encode_addrs l) ≡ length l * 16
unfolding encode_addrs
length-encode_addrs [] = refl
length-encode_addrs (a ∷ l) = omega (arith, length_addr a (encode_addrs l), length-encode_addrs l)

-- The encoding takes as many bytes as `coords_wire_size` says.
pub length-encode_coords : (c : TreeCoordinate) → length (encode_coords c) ≡ coords_wire_size c
unfolding encode_coords coords_wire_size
length-encode_coords c =
    length_uint 2 (length (node_addrs c) % 2 ^ 16) (encode_addrs (node_addrs c))
    ∙ omega (
      arith,
      length-encode_addrs (node_addrs c),
      ap (λ (t : ℕ). t * 16) (length-map c.rest (λ e. e.node_addr)),
    )

addrs_written :
    (l : List ℕ)
    → All IsNodeAddr l
    → (ys : List ℕ) → read_addrs (length l) (encode_addrs l ++ ys) ≡ ok (l, ys)
unfolding read_addrs encode_addrs
addrs_written [] h ys = refl
addrs_written (a ∷ l) h ys =
    rw (append_assoc (as_bytes a) (encode_addrs l) ys)
      (simp (◌>>=◌, addr_written a h.0, addrs_written l h.1))

suc-not_zero : (n : ℕ) → (suc n == 0) ≡ false
suc-not_zero n = ground arith

coords_of_addrs :
    (c : TreeCoordinate) (ys : List ℕ) → coords_of (node_addrs c) ys ≡ ok (without_meta c, ys)
unfolding coords_of from_addrs without_meta
coords_of_addrs c ys = refl

module _ (c : TreeCoordinate) (v : IsWireCoordinate c) (ys : List ℕ) where
  abbrev written : List ℕ
  written = encode_coords c ++ ys

  long_enough : length written ≡ 2 + length (node_addrs c) * 16 + length ys
  unfolding encode_coords
  long_enough = omega (
    arith,
    length-append (encode_coords c) ys,
    length_uint 2 (length (node_addrs c) % 2 ^ 16) (encode_addrs (node_addrs c)),
    length-encode_addrs (node_addrs c),
  )

  count_read : uint 2 written ≡ ok (length (node_addrs c), encode_addrs (node_addrs c) ++ ys)
  unfolding encode_coords
  count_read =
      rw
        (
          mod-eq_of_lt {m = 2 ^ 16} v.count,
          append_assoc (le_bytes 2 (length (node_addrs c))) (encode_addrs (node_addrs c)) ys,
        )
        (uint_written 2 (length (node_addrs c)) v.count (encode_addrs (node_addrs c) ++ ys))

  pub coords_written : decode_coords written ≡ ok (without_meta c, ys)
  unfolding decode_coords
  coords_written = rw (le→ltb (length written) 2 (omega (arith, long_enough))) (
      rw (count_read, ◌>>=◌)
        (rw (le→ltb (length written) (2 + length (node_addrs c) * 16) (omega (arith, long_enough)))
          (simp (◌>>=◌, suc-not_zero, addrs_written (node_addrs c) v.addrs, coords_of_addrs c))))

  pub optional_coords_written : decode_optional_coords written ≡ ok (some (without_meta c), ys)
  unfolding decode_optional_coords
  optional_coords_written = rw (le→ltb (length written) 2 (omega (arith, long_enough))) (
      rw (count_read, ◌>>=◌)
        (rw (le→ltb (length written) (2 + length (node_addrs c) * 16) (omega (arith, long_enough)))
          (simp (◌>>=◌, suc-not_zero, addrs_written (node_addrs c) v.addrs, coords_of_addrs c))))

pub empty_coords_written :
    (ys : List ℕ) → decode_optional_coords (encode_empty_coords ++ ys) ≡ ok (none, ys)
unfolding decode_optional_coords encode_empty_coords
empty_coords_written ys = rw (le→ltb (length (le_bytes 2 0 ++ ys)) 2 (omega (arith, length_uint))) (
    rw (uint_written 2 0 (omega arith) ys, ◌>>=◌)
      (rw (le→ltb (length (le_bytes 2 0 ++ ys)) 2 (omega (arith, length_uint))) refl))

read_addrs-Takes : (n : ℕ) → Takes (n * 16) (read_addrs n)
unfolding read_addrs
read_addrs-Takes zero xs h = ([], xs, refl, omega arith)
read_addrs-Takes (suc n) xs h =
    let (a, l, e, k) = addr-Takes xs (omega arith) in
    let (more, l', e', k') = read_addrs-Takes n l (omega arith) in
    (a ∷ more, l', rw (e, ◌>>=◌) (rw (e', ◌>>=◌)), omega arith)

coords_of-Safe : (addrs : List ℕ) → Safe 0 (coords_of addrs)
unfolding coords_of from_addrs
coords_of-Safe [] xs h e = cc
coords_of-Safe (a ∷ addrs) xs h e = cc

read_coords-ne-panic :
    (len count : ℕ) (xs : List ℕ) → len ≤ 2 + length xs → read_coords len count xs ≢ panic
unfolding read_coords
read_coords-ne-panic len count xs h = elim (Bool-cases (ltb len (2 + count * 16))) [
  | inl short ↦ rw short (λ e. cc)
  | inr long ↦ rw long (elim (Bool-cases (count == 0)) [
    | inl empty ↦ rw empty (λ e. cc)
    | inr some_left ↦
        let (addrs, l, e, k) =
          read_addrs-Takes count xs (omega (arith, ltb-false→le len (2 + count * 16) long)) in
        rw some_left (rw (e, ◌>>=◌) (coords_of-Safe addrs l (omega arith)))
  ])
]

some_coords-ne-panic : (addrs l : List ℕ) → (do c ← coords_of addrs; pure (some c)) l ≢ panic
unfolding coords_of from_addrs
some_coords-ne-panic [] l e = cc
some_coords-ne-panic (a ∷ addrs) l e = cc

read_optional_coords-ne-panic :
    (len count : ℕ) (xs : List ℕ) → len ≤ 2 + length xs → read_optional_coords len count xs ≢ panic
unfolding read_optional_coords
read_optional_coords-ne-panic len count xs h = elim (Bool-cases (ltb len (2 + count * 16))) [
  | inl short ↦ rw short (λ e. cc)
  | inr long ↦ rw long (elim (Bool-cases (count == 0)) [
    | inl empty ↦ rw empty (λ e. cc)
    | inr some_left ↦
        let (addrs, l, e, k) =
          read_addrs-Takes count xs (omega (arith, ltb-false→le len (2 + count * 16) long)) in
        rw some_left (rw (e, ◌>>=◌) (some_coords-ne-panic addrs l))
  ])
]

pub decode_coords-Safe : Safe 0 decode_coords
unfolding decode_coords
decode_coords-Safe xs h = elim (Bool-cases (ltb (length xs) 2)) [
  | inl short ↦ rw short (λ e. cc)
  | inr long ↦
      let (count, l, e, k) = uint-Takes 2 xs (ltb-false→le (length xs) 2 long) in
      rw long (rw (e, ◌>>=◌) (read_coords-ne-panic (length xs) count l (omega arith)))
]

pub decode_optional_coords-Safe : Safe 0 decode_optional_coords
unfolding decode_optional_coords
decode_optional_coords-Safe xs h = elim (Bool-cases (ltb (length xs) 2)) [
  | inl short ↦ rw short (λ e. cc)
  | inr long ↦
      let (count, l, e, k) = uint-Takes 2 xs (ltb-false→le (length xs) 2 long) in
      rw long (rw (e, ◌>>=◌) (read_optional_coords-ne-panic (length xs) count l (omega arith)))
]
