-- ===== src/Tests/Bloom.antt =====
-- The Bloom filters on a toy digest, which repeats the length of its input.
use fips_native.Base.{
  ℕ, ◌<◌, ◌≡◌, ◌≢◌, ◌↔◌, ◌⊎◌, refl, arith, List, [], ◌∷◌, true, some, none, length, replicate,
}
use fips_native.Bloom.Filter.{
  BloomFilter, ok, err, invalid_size, hash, insert_bytes, contains_bytes, merge,
}
use fips_native.Bloom.Filter
use fips_native.Bloom.Filter.Bits.{IsBloomFilter, row_bit, new-IsBloomFilter}
use fips_native.Bloom.Filter.Members.{SameShape, Covers, contains_correct, insert_correct}
use fips_native.Bloom.Filter.Merge.{IsUnion, merge_correct}
use fips_native.Bloom.State.{compute_outgoing_filter}
use fips_native.Bloom.State
use fips_native.Bloom.State.Outgoing.{IsOutgoing, compute_outgoing_filter-IsOutgoing}

abbrev toy_digest : List ℕ → List ℕ
toy_digest bytes = replicate 32 (length bytes)

abbrev toy_filter : BloomFilter
toy_filter = record { bits = 0 ∷ 4 ∷ []; num_bits = 16; hash_count = 2 }

toy_filter-IsBloomFilter : IsBloomFilter toy_filter
toy_filter-IsBloomFilter = record { size = refl; some_bits = omega arith; some_hash = omega arith }

contains_correct_example :
    ((contains_bytes toy_digest toy_filter (1 ∷ []) ≡ some true)
      ↔ Covers toy_digest toy_filter (1 ∷ []))
    × (contains_bytes toy_digest toy_filter (1 ∷ []) ≢ none)
contains_correct_example = contains_correct toy_digest toy_filter (1 ∷ []) toy_filter-IsBloomFilter

insert_correct_example :
    (g : BloomFilter) × (insert_bytes toy_digest toy_filter (1 ∷ []) ≡ some g)
    × IsBloomFilter g
    × SameShape toy_filter g
    × Covers toy_digest g (1 ∷ [])
    × ((more : List ℕ) → Covers toy_digest toy_filter more → Covers toy_digest g more)
    × ((j : ℕ)
        → row_bit g.bits j ≡ 1
        → (row_bit toy_filter.bits j ≡ 1)
          ⊎ ((k : ℕ) × (k < 2) × (hash toy_digest toy_filter (1 ∷ []) k ≡ j)))
insert_correct_example = insert_correct toy_digest toy_filter (1 ∷ []) toy_filter-IsBloomFilter

merge_correct_example :
    (toy_filter.num_bits ≢ toy_filter.num_bits
      → merge toy_filter toy_filter ≡ err (invalid_size 16 16))
    × (toy_filter.num_bits ≡ toy_filter.num_bits
        → (h : BloomFilter) × (merge toy_filter toy_filter ≡ ok h)
          × IsUnion toy_digest toy_filter toy_filter h)
merge_correct_example =
    merge_correct toy_digest toy_filter toy_filter toy_filter-IsBloomFilter toy_filter-IsBloomFilter

compute_outgoing_filter-IsOutgoing_example :
    (f : BloomFilter) × (compute_outgoing_filter toy_digest (State.new 5) 9 ((7, Filter.new) ∷ [])
      ≡ some f)
    × IsOutgoing toy_digest (State.new 5) 9 ((7, Filter.new) ∷ []) f
compute_outgoing_filter-IsOutgoing_example =
    compute_outgoing_filter-IsOutgoing toy_digest (State.new 5) 9 ((7, Filter.new) ∷ [])
      (new-IsBloomFilter, tt)
