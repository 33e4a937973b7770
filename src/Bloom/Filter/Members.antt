-- ===== src/Bloom/Filter/Members.antt =====
-- Insertion and lookup: a filter has no false negatives.
use fips_native.Base.{
  ℕ, zero, suc, ◌+◌, ◌*◌, ◌≤◌, ◌<◌, ◌≡◌, ◌≢◌, ◌⊎◌, ◌↔◌, ◌∙◌, sym, refl, inl, inr, arith, List, true,
  false, none, some, ◌==◌, if◌then◌else◌, length, Bool-cases,
}
use native.Mathlib.Nat.{mod-lt}
use native.Mathlib.Decide.{ℕ_discrete}
use fips_native.Bloom.Filter.{
  BloomFilter, hash, insert_from, insert_bytes, contains_from, contains_bytes,
}
use fips_native.Bloom.Filter.Bits.{
  IsBloomFilter, row_bit, with_bit, row_bit-with_bit, set_bit_lem, get_bit_lem,
  with_bit-IsBloomFilter,
}

-- What all operations of a filter leave alone.
pub record SameShape (f g : BloomFilter) : Type 0 where
  pub num_bits : g.num_bits ≡ f.num_bits
  pub hash_count : g.hash_count ≡ f.hash_count

module _ (digest : List ℕ → List ℕ) where
  -- A filter covers some bytes when all bits of their hashes are set.
  unfoldable pub Covers : BloomFilter → List ℕ → Type 0
  Covers f bytes = (i : ℕ) → i < f.hash_count → row_bit f.bits (hash digest f bytes i) ≡ 1

  hash-lt :
      (f : BloomFilter) (bytes : List ℕ) (i : ℕ)
      → IsBloomFilter f
      → hash digest f bytes i < length f.bits * 8
  unfolding hash
  hash-lt f bytes i v = rw (← v.size) (mod-lt _ v.some_bits)

  pub hash-eq :
      (f g : BloomFilter) (bytes : List ℕ) (i : ℕ)
      → g.num_bits ≡ f.num_bits
      → hash digest g bytes i ≡ hash digest f bytes i
  unfolding hash
  hash-eq f g bytes i e = rw e refl

  pub hash-SameShape :
      (f g : BloomFilter) (bytes : List ℕ) (i : ℕ)
      → SameShape f g
      → hash digest g bytes i ≡ hash digest f bytes i
  hash-SameShape f g bytes i s = hash-eq f g bytes i s.num_bits

  -- What rounds `i` to `i + n` of an insertion did.
  record Inserted (f g : BloomFilter) (bytes : List ℕ) (i n : ℕ) : Type 0 where
    valid : IsBloomFilter g
    shape : SameShape f g
    kept : (j : ℕ) → row_bit f.bits j ≡ 1 → row_bit g.bits j ≡ 1
    put : (k : ℕ) → i ≤ k → k < i + n → row_bit g.bits (hash digest f bytes k) ≡ 1
    only :
        (j : ℕ)
        → row_bit g.bits j ≡ 1
        → (row_bit f.bits j ≡ 1) ⊎ ((k : ℕ) × (k < i + n) × (hash digest f bytes k ≡ j))

  one_more :
      (f m g : BloomFilter) (bytes : List ℕ) (i n : ℕ)
      → ((j : ℕ) → row_bit m.bits j ≡ (if hash digest f bytes i == j then 1 else row_bit f.bits j))
      → SameShape f m
      → Inserted m g bytes (suc i) n
      → Inserted f g bytes i (suc n)
  one_more f m g bytes i n bit s r = record {
    valid = r.valid;
    shape = record {
      num_bits = r.shape.num_bits ∙ s.num_bits;
      hash_count = r.shape.hash_count ∙ s.hash_count;
    };
    kept = λ j h. r.kept j (ground (arith, bit j));
    put = λ k low high. elim (ℕ_discrete i k) [
      | yes e ↦
          rw (← e) (r.kept (hash digest f bytes i) (ground (arith, bit (hash digest f bytes i))))
      | no later ↦ rw (← hash-SameShape f m bytes k s) (r.put k (omega arith) (omega arith))
    ];
    only = λ j h. elim (r.only j h) [
      | inr (k, l, e) ↦ inr (k, omega arith, sym (hash-SameShape f m bytes k s) ∙ e)
      | inl old ↦ elim (ℕ_discrete (hash digest f bytes i) j) [
        | yes e ↦ inr (i, omega arith, e)
        | no other ↦ inl (ground (arith, bit j))
      ]
    ];
  }

  insert_from-Inserted :
      (n i : ℕ) (f : BloomFilter) (bytes : List ℕ)
      → IsBloomFilter f
      → (g : BloomFilter) × (insert_from digest n i f bytes ≡ some g) × Inserted f g bytes i n
  unfolding insert_from
  insert_from-Inserted zero i f bytes v = (
    f,
    refl,
    record {
      valid = v;
      shape = record { num_bits = refl; hash_count = refl };
      kept = λ j h. h;
      put = λ k l m. absurd (omega arith);
      only = λ j h. inl h;
    },
  )
  insert_from-Inserted (suc n) i f bytes v =
      let h = hash digest f bytes i in
      let l : h < length f.bits * 8 = hash-lt f bytes i v in
      let m : BloomFilter = record f { bits = with_bit f.bits h l } in
      let s : SameShape f m = record { num_bits = refl; hash_count = refl } in
      let (g, e, r) = insert_from-Inserted n (suc i) m bytes (with_bit-IsBloomFilter f h v l) in
      (
        g,
        rw (set_bit_lem f h v l, insert_from) e,
        one_more f m g bytes i n (row_bit-with_bit f.bits h l) s r,
      )

  contains_from-all :
      (n i : ℕ) (f : BloomFilter) (bytes : List ℕ)
      → IsBloomFilter f
      → ((k : ℕ) → i ≤ k → k < i + n → row_bit f.bits (hash digest f bytes k) ≡ 1)
      → contains_from digest n i f bytes ≡ some true
  unfolding contains_from
  contains_from-all zero i f bytes v h = refl
  contains_from-all (suc n) i f bytes v h =
      rw
        (
          get_bit_lem f (hash digest f bytes i) (hash-lt f bytes i v),
          contains_from,
          h i (omega arith) (omega arith),
        )
        (contains_from-all n (suc i) f bytes v (λ k l m. h k (omega arith) (omega arith)))

  contains_from-some :
      (n i : ℕ) (f : BloomFilter) (bytes : List ℕ)
      → IsBloomFilter f
      → (contains_from digest n i f bytes ≡ some false)
        ⊎ ((contains_from digest n i f bytes ≡ some true)
            × ((k : ℕ) → i ≤ k → k < i + n → row_bit f.bits (hash digest f bytes k) ≡ 1))
  unfolding contains_from
  contains_from-some zero i f bytes v = inr (refl, λ k l m. absurd (omega arith))
  contains_from-some (suc n) i f bytes v =
      let found = get_bit_lem f (hash digest f bytes i) (hash-lt f bytes i v) in
      elim (Bool-cases (row_bit f.bits (hash digest f bytes i) == 1)) [
        | inr clear ↦ inl (rw (found, contains_from, clear) refl)
        | inl here ↦ elim (contains_from-some n (suc i) f bytes v) [
          | inl no_ ↦ inl (rw (found, contains_from, here) no_)
          | inr (all, h) ↦ inr (
            rw (found, contains_from, here) all,
            λ k low high. elim (ℕ_discrete i k) [
              | yes e ↦ rw (← e) (ground arith)
              | no later ↦ h k (omega arith) (omega arith)
            ],
          )
        ]
      ]

  -- On a well-formed filter contains does not panic, and says yes exactly when all the hashes of
  -- the bytes are set.
  pub contains_correct :
      (f : BloomFilter) (bytes : List ℕ)
      → IsBloomFilter f
      → ((contains_bytes digest f bytes ≡ some true) ↔ Covers f bytes)
        × (contains_bytes digest f bytes ≢ none)
  unfolding contains_bytes Covers
  contains_correct f bytes v = elim (contains_from-some f.hash_count 0 f bytes v) [
    | inl no_ ↦ (
      (
        λ h. absurd (ground (arith, no_, h)),
        λ h. contains_from-all f.hash_count 0 f bytes v (λ k l m. h k (omega arith)),
      ),
      λ h. ground (arith, no_, h),
    )
    | inr (all, h) ↦
        ((λ e k m. h k (omega arith) (omega arith), λ g. all), λ g. ground (arith, all, g))
  ]

  -- On a well-formed filter insert does not panic; the filter then covers what was inserted and
  -- all that it covered, and a bit is set only if it was or if it is one of the hashes.
  pub insert_correct :
      (f : BloomFilter) (bytes : List ℕ)
      → IsBloomFilter f
      → (g : BloomFilter) × (insert_bytes digest f bytes ≡ some g)
        × IsBloomFilter g
        × SameShape f g
        × Covers g bytes
        × ((more : List ℕ) → Covers f more → Covers g more)
        × ((j : ℕ)
            → row_bit g.bits j ≡ 1
            → (row_bit f.bits j ≡ 1) ⊎ ((k : ℕ) × (k < f.hash_count) × (hash digest f bytes k ≡ j)))
  unfolding insert_bytes Covers
  insert_correct f bytes v =
      let (g, e, r) = insert_from-Inserted f.hash_count 0 f bytes v in
      (
        g,
        e,
        r.valid,
        r.shape,
        λ i l.
            rw (hash-SameShape f g bytes i r.shape)
              (r.put i (omega arith) (omega (arith, r.shape.hash_count))),
        λ more h i l.
            rw (hash-SameShape f g more i r.shape)
              (r.kept (hash digest f more i) (h i (omega (arith, r.shape.hash_count)))),
        λ j h. elim (r.only j h) [ inl old ↦ inl old | inr (k, l, e) ↦ inr (k, omega arith, e) ],
      )
