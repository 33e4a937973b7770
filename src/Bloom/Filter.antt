-- ===== src/Bloom/Filter.antt =====
-- fips/src/bloom/filter.rs: `BloomFilter`. SHA-256 (the sha2 crate) is not part of the sources: it
-- is the parameter `digest`, the 32 bytes of a hash. An index out of range panics: `none`.
pub mod Bits
pub mod Members
pub mod Merge
use fips_native.Base.{
  ℕ, zero, suc, ◌+◌, ◌*◌, ◌/◌, ◌%◌, ◌^◌, List, [], ◌∷◌, Bool, true, false, ◌&&◌, not, Option, none,
  some, ◌==◌, if◌then◌else◌, length, get_elem?, set, take, drop, replicate, all,
}
use fips_native.Codec.Bytes.{from_le}
use Prim.Native.Nat.{bit_or}

abbrev pub default_filter_size_bits : ℕ
default_filter_size_bits = 8192

abbrev pub default_hash_count : ℕ
default_hash_count = 5

abbrev pub v1_size_class : ℕ
v1_size_class = 1

pub data BloomError : Type 0 where
  invalid_size : ℕ → ℕ → BloomError
  size_not_byte_aligned : ℕ → BloomError
  zero_hash_count : BloomError

pub data BloomResult (A : Type 0) : Type 0 where
  ok : A → BloomResult A
  err : BloomError → BloomResult A

pub record BloomFilter : Type 0 where
  pub bits : List ℕ
  pub num_bits : ℕ
  pub hash_count : ℕ

-- `BloomFilter::new`, whose parameters are valid.
unfoldable pub new : BloomFilter
new = record {
  bits = replicate (default_filter_size_bits / 8) 0;
  num_bits = default_filter_size_bits;
  hash_count = default_hash_count;
}

unfoldable pub with_params : ℕ → ℕ → BloomResult BloomFilter
with_params num_bits hash_count =
    if num_bits == 0
    then err (size_not_byte_aligned num_bits)
    else (if num_bits % 8 == 0
        then (if hash_count == 0
            then err zero_hash_count
            else ok (record {
              bits = replicate (num_bits / 8) 0;
              num_bits = num_bits;
              hash_count = hash_count;
            }))
        else err (size_not_byte_aligned num_bits))

unfoldable pub from_bytes : List ℕ → ℕ → BloomResult BloomFilter
from_bytes bytes hash_count =
    if hash_count == 0
    then err zero_hash_count
    else (if length bytes == 0
        then err (size_not_byte_aligned 0)
        else ok (record { bits = bytes; num_bits = length bytes * 8; hash_count = hash_count }))

unfoldable pub set_bit : BloomFilter → ℕ → Option BloomFilter
set_bit f index = elim (get_elem? f.bits (index / 8)) [
  | none ↦ none
  | some b ↦ some (record f { bits = set f.bits (index / 8) (bit_or b (2 ^ (index % 8))) })
]

unfoldable pub get_bit : BloomFilter → ℕ → Option Bool
get_bit f index = elim (get_elem? f.bits (index / 8)) [
  | none ↦ none
  | some b ↦ some (b / 2 ^ (index % 8) % 2 == 1)
]

-- The loop of `merge`: `zip` ends with the shorter of the two.
unfoldable pub or_bytes : List ℕ → List ℕ → List ℕ
or_bytes [] bs = []
or_bytes (a ∷ more) [] = a ∷ more
or_bytes (a ∷ more) (b ∷ bs) = bit_or a b ∷ or_bytes more bs

unfoldable pub merge : BloomFilter → BloomFilter → BloomResult BloomFilter
unfolding or_bytes
merge f g =
    if f.num_bits == g.num_bits
    then ok (record f { bits = or_bytes f.bits g.bits })
    else err (invalid_size f.num_bits g.num_bits)

unfoldable pub clear : BloomFilter → BloomFilter
clear f = record f { bits = replicate (length f.bits) 0 }

unfoldable pub is_empty : BloomFilter → Bool
is_empty f = all (λ b. b == 0) f.bits

unfoldable pub same_bytes : List ℕ → List ℕ → Bool
same_bytes [] [] = true
same_bytes [] (b ∷ bs) = false
same_bytes (a ∷ more) [] = false
same_bytes (a ∷ more) (b ∷ bs) = (a == b) && same_bytes more bs

-- `PartialEq::eq`.
unfoldable pub same_filter : BloomFilter → BloomFilter → Bool
unfolding same_bytes
same_filter f g =
    (f.num_bits == g.num_bits) && ((f.hash_count == g.hash_count) && same_bytes f.bits g.bits)

module _ (digest : List ℕ → List ℕ) where
  unfoldable pub hash : BloomFilter → List ℕ → ℕ → ℕ
  hash f bytes k =
      let h1 : ℕ = from_le (take 8 (digest bytes)) in
      let h2 : ℕ = from_le (take 8 (drop 8 (digest bytes))) in
      (h1 + k * h2 % 2 ^ 64) % 2 ^ 64 % f.num_bits

  -- `for i in 0..hash_count`: from round `i`, with `n` rounds left.
  unfoldable pub insert_from : ℕ → ℕ → BloomFilter → List ℕ → Option BloomFilter
  unfolding set_bit
  insert_from zero i f bytes = some f
  insert_from (suc n) i f bytes = elim (set_bit f (hash f bytes i)) [
    | none ↦ none
    | some g ↦ insert_from n (suc i) g bytes
  ]

  unfoldable pub insert_bytes : BloomFilter → List ℕ → Option BloomFilter
  unfolding insert_from
  insert_bytes f bytes = insert_from f.hash_count 0 f bytes

  unfoldable pub contains_from : ℕ → ℕ → BloomFilter → List ℕ → Option Bool
  unfolding get_bit
  contains_from zero i f bytes = some true
  contains_from (suc n) i f bytes = elim (get_bit f (hash f bytes i)) [
    | none ↦ none
    | some b ↦ elim b [ true ↦ contains_from n (suc i) f bytes | false ↦ some false ]
  ]

  unfoldable pub contains_bytes : BloomFilter → List ℕ → Option Bool
  unfolding contains_from
  contains_bytes f bytes = contains_from f.hash_count 0 f bytes
