-- ===== src/Bloom/Filter/Bits.antt =====
-- The bits of a filter as one row, and what the single operations do to it.
use fips_native.Base.{
  ℕ, ◌*◌, ◌/◌, ◌%◌, ◌^◌, ◌<◌, ◌≡◌, refl, arith, List, some, ◌==◌, if◌then◌else◌, set, get_or,
  length, get_or-set_self, get_or-set_ne, get_elem?-get_or, length-set, get_or-replicate,
  length-replicate, replicate,
}
use fips_native.Base.Bits.{bit, bit-lt_two, bit-bit_or, bit-two_pow, bit-zero, shift-bit}
use Prim.Native.Nat.{bit_or}
use native.Mathlib.Decide.{ℕ_discrete}
use fips_native.Bloom.Filter.{BloomFilter, new, set_bit, get_bit, default_filter_size_bits}

-- A filter as its constructors make it.
pub record IsBloomFilter (f : BloomFilter) : Type 0 where
  pub size : f.num_bits ≡ length f.bits * 8
  pub some_bits : 0 < f.num_bits
  pub some_hash : 0 < f.hash_count

unfoldable pub row_bit : List ℕ → ℕ → ℕ
row_bit bs j = bit (get_or bs (j / 8) 0) (j % 8)

pub row_bit-lt_two : (bs : List ℕ) (j : ℕ) → row_bit bs j < 2
unfolding row_bit
row_bit-lt_two bs j = bit-lt_two (get_or bs (j / 8) 0) (j % 8)

pub row_bit-zeros : (n j : ℕ) → row_bit (replicate n 0) j ≡ 0
unfolding row_bit
row_bit-zeros n j = rw (get_or-replicate {A = ℕ} n (j / 8) 0) (bit-zero (j % 8))

module _ (bs : List ℕ) (d : ℕ) (l : d < length bs * 8) where
  abbrev pub with_bit : List ℕ
  with_bit = set bs (d / 8) (bit_or (get_or bs (d / 8) 0) (2 ^ (d % 8)))

  pub row_bit-with_bit : (j : ℕ) → row_bit with_bit j ≡ (if d == j then 1 else row_bit bs j)
  unfolding row_bit
  row_bit-with_bit j = elim (ℕ_discrete (d / 8) (j / 8)) [
    | yes e ↦ rw (← e) (
        rw
          (
            get_or-set_self bs (d / 8) (bit_or (get_or bs (d / 8) 0) (2 ^ (d % 8))) 0 (omega arith),
            bit-bit_or (get_or bs (d / 8) 0) (2 ^ (d % 8)) (j % 8),
            bit-two_pow (d % 8) (j % 8),
          )
          (ground (arith, bit-lt_two (get_or bs (d / 8) 0) (j % 8))))
    | no n ↦
        rw (get_or-set_ne bs (d / 8) (j / 8) (bit_or (get_or bs (d / 8) 0) (2 ^ (d % 8))) 0 n)
          (ground arith)
  ]

pub set_bit_lem :
    (f : BloomFilter) (d : ℕ)
    → IsBloomFilter f
    → (l : d < length f.bits * 8) → set_bit f d ≡ some (record f { bits = with_bit f.bits d l })
unfolding set_bit
set_bit_lem f d v l = rw (get_elem?-get_or f.bits (d / 8) 0 (omega (arith, v.size)), set_bit) refl

pub get_bit_lem :
    (f : BloomFilter) (d : ℕ) → d < length f.bits * 8 → get_bit f d ≡ some (row_bit f.bits d == 1)
unfolding get_bit row_bit
get_bit_lem f d l =
    rw
      (
        get_elem?-get_or f.bits (d / 8) 0 (omega arith),
        get_bit,
        shift-bit (get_or f.bits (d / 8) 0) (d % 8),
      )
      refl

pub with_bit-IsBloomFilter :
    (f : BloomFilter) (d : ℕ)
    → IsBloomFilter f
    → (l : d < length f.bits * 8) → IsBloomFilter (record f { bits = with_bit f.bits d l })
with_bit-IsBloomFilter f d v l = record {
  size =
      omega
        (arith, v.size, length-set f.bits (d / 8) (bit_or (get_or f.bits (d / 8) 0) (2 ^ (d % 8))));
  some_bits = v.some_bits;
  some_hash = v.some_hash;
}

pub new-IsBloomFilter : IsBloomFilter new
unfolding new
new-IsBloomFilter = record {
  size = omega (arith, length-replicate {A = ℕ} (default_filter_size_bits / 8) 0);
  some_bits = omega arith;
  some_hash = omega arith;
}

-- The default filter has the default parameters and no bit.
pub new_lem : (new.num_bits ≡ 8192) × (new.hash_count ≡ 5) × ((j : ℕ) → row_bit new.bits j ≡ 0)
unfolding new
new_lem = (refl, refl, λ j. row_bit-zeros (default_filter_size_bits / 8) j)
