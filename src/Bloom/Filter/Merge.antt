-- ===== src/Bloom/Filter/Merge.antt =====
-- `merge`: the union of two filters of one size.
use fips_native.Base.{
  ℕ, zero, suc, ◌/◌, ◌%◌, ◌≤◌, ◌≡◌, ◌≢◌, refl, arith, max, List, [], ◌∷◌, length, get_or,
}
use fips_native.Base.Bits.{bit-bit_or}
use Prim.Native.Nat.{bit_or}
use fips_native.Bloom.Filter.{BloomFilter, ok, err, invalid_size, hash, or_bytes, merge}
use fips_native.Bloom.Filter.Bits.{IsBloomFilter, row_bit, row_bit-lt_two}
use fips_native.Bloom.Filter.Members.{SameShape, Covers, hash-SameShape, hash-eq}

length-or_bytes : (xs ys : List ℕ) → length (or_bytes xs ys) ≡ length xs
unfolding or_bytes
length-or_bytes [] ys = refl
length-or_bytes (a ∷ more) [] = refl
length-or_bytes (a ∷ more) (b ∷ ys) = omega (arith, length-or_bytes more ys)

get_or-or_bytes :
    (xs ys : List ℕ) (i : ℕ)
    → length xs ≡ length ys
    → get_or (or_bytes xs ys) i 0 ≡ bit_or (get_or xs i 0) (get_or ys i 0)
unfolding or_bytes
get_or-or_bytes [] [] i h = refl
get_or-or_bytes [] (b ∷ ys) i h = absurd (omega arith)
get_or-or_bytes (a ∷ more) [] i h = absurd (omega arith)
get_or-or_bytes (a ∷ more) (b ∷ ys) zero h = refl
get_or-or_bytes (a ∷ more) (b ∷ ys) (suc i) h = get_or-or_bytes more ys i (omega arith)

row_bit-or_bytes :
    (xs ys : List ℕ) (j : ℕ)
    → length xs ≡ length ys
    → row_bit (or_bytes xs ys) j ≡ max (row_bit xs j) (row_bit ys j)
unfolding row_bit
row_bit-or_bytes xs ys j h =
    rw (get_or-or_bytes xs ys (j / 8) h)
      (bit-bit_or (get_or xs (j / 8) 0) (get_or ys (j / 8) 0) (j % 8))

-- The union `h` of `f` and `g`.
pub record IsUnion (digest : List ℕ → List ℕ) (f g h : BloomFilter) : Type 0 where
  pub valid : IsBloomFilter h
  pub shape : SameShape f h
  pub bits : (j : ℕ) → row_bit h.bits j ≡ max (row_bit f.bits j) (row_bit g.bits j)
  pub left : (bytes : List ℕ) → Covers digest f bytes → Covers digest h bytes
  pub right :
      (bytes : List ℕ) → f.hash_count ≤ g.hash_count → Covers digest g bytes → Covers digest h bytes

-- Two well-formed filters of different sizes are refused by merge; of the same size, their union
-- has a bit exactly where one of them has it, covers all that the first covered, and all that
-- the second covered if it has at least as many hashes.
pub merge_correct :
    (digest : List ℕ → List ℕ) (f g : BloomFilter)
    → IsBloomFilter f
    → IsBloomFilter g
    → (f.num_bits ≢ g.num_bits → merge f g ≡ err (invalid_size f.num_bits g.num_bits))
      × (f.num_bits ≡ g.num_bits → (h : BloomFilter) × (merge f g ≡ ok h) × IsUnion digest f g h)
unfolding merge Covers
merge_correct digest f g v w = (
  λ n. ground arith,
  λ e. (
    h,
    ground arith,
    record {
      valid = record {
        size = omega (arith, v.size, length-or_bytes f.bits g.bits);
        some_bits = v.some_bits;
        some_hash = v.some_hash;
      };
      shape = shape;
      bits = both e;
      left = λ bytes c i l. rw (hash-SameShape digest f h bytes i shape) (
          omega (
            arith,
            both e (hash digest f bytes i),
            c i l,
            row_bit-lt_two g.bits (hash digest f bytes i),
          ));
      right = λ bytes few c i l. rw (hash-eq digest g h bytes i e) (
          omega (
            arith,
            both e (hash digest g bytes i),
            c i (omega arith),
            row_bit-lt_two f.bits (hash digest g bytes i),
          ));
    },
  ),
)
  where
    h : BloomFilter
    h = record f { bits = or_bytes f.bits g.bits }

    shape : SameShape f h
    shape = record { num_bits = refl; hash_count = refl }

    both :
        f.num_bits ≡ g.num_bits
        → (j : ℕ) → row_bit h.bits j ≡ max (row_bit f.bits j) (row_bit g.bits j)
    both e j = row_bit-or_bytes f.bits g.bits j (omega (arith, v.size, w.size))
