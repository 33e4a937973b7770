-- ===== src/Bloom/State/Outgoing.antt =====
-- The filter that a peer is sent: what it covers, and where its bits come from.
use fips_native.Base.{
  ℕ, ◌≤◌, ◌<◌, ◌≡◌, ◌≢◌, ◌⊎◌, ◌∙◌, sym, refl, inl, inr, arith, List, [], ◌∷◌, some, ◌==◌,
  Bool-cases,
}
use native.Mathlib.Decide.{ℕ_discrete}
use fips_native.Base.Map.{Map}
use fips_native.Codec.Bytes.{as_bytes}
use fips_native.Bloom.Filter.{BloomFilter, BloomResult, ok, err, hash, merge, insert_bytes}
use fips_native.Bloom.Filter
use fips_native.Bloom.Filter.Bits.{
  IsBloomFilter, row_bit, row_bit-lt_two, new-IsBloomFilter, new_lem,
}
use fips_native.Bloom.Filter.Members.{SameShape, Covers, hash-SameShape, insert_correct}
use fips_native.Bloom.Filter.Merge.{merge_correct}
use fips_native.Bloom.State.{
  BloomState, AddrSet, insert_all, base_filter, merge_one, merge_peers, compute_outgoing_filter,
}

-- The filters that peers have announced, as the decoder makes them.
abbrev pub AllFilters : Map BloomFilter → Type 0
AllFilters [] = Unit
AllFilters ((p, g) ∷ m) = IsBloomFilter g × AllFilters m

-- The filters of all peers but one take part.
abbrev pub TakesPart : ℕ → Map BloomFilter → ℕ → BloomFilter → Type 0
TakesPart exclude [] q g = ⊥
TakesPart exclude ((p, h) ∷ m) q g = ((p ≢ exclude) × (p ≡ q) × (h ≡ g)) ⊎ TakesPart exclude m q g

module _ (digest : List ℕ → List ℕ) (exclude : ℕ) where
  -- The result `h` of one round, on the filter `g` of peer `p`.
  record One (f h : BloomFilter) (p : ℕ) (g : BloomFilter) : Type 0 where
    valid : IsBloomFilter h
    shape : SameShape f h
    kept : (bytes : List ℕ) → Covers digest f bytes → Covers digest h bytes
    gained :
        (bytes : List ℕ)
        → p ≢ exclude
        → g.num_bits ≡ f.num_bits
        → f.hash_count ≤ g.hash_count
        → Covers digest g bytes
        → Covers digest h bytes
    only :
        (j : ℕ)
        → row_bit h.bits j ≡ 1
        → (row_bit f.bits j ≡ 1) ⊎ ((p ≢ exclude) × (row_bit g.bits j ≡ 1))

  -- A round that changes nothing.
  unchanged :
      (f : BloomFilter) (p : ℕ) (g : BloomFilter)
      → IsBloomFilter f
      → (p ≢ exclude → g.num_bits ≢ f.num_bits)
      → One f f p g
  unchanged f p g v no_ = record {
    valid = v;
    shape = record { num_bits = refl; hash_count = refl };
    kept = λ bytes c. c;
    gained = λ bytes other same. absurd (no_ other same);
    only = λ j h. inl h;
  }

  merge_one-One :
      (f : BloomFilter) (p : ℕ) (g : BloomFilter)
      → IsBloomFilter f
      → IsBloomFilter g
      → One f (merge_one exclude f p g) p g
  unfolding merge_one
  merge_one-One f p g v w = elim (Bool-cases (p == exclude)) [
    | inl out ↦ rw out (unchanged f p g v (λ n. absurd (n (ground arith))))
    | inr other ↦ rw other (elim (ℕ_discrete f.num_bits g.num_bits) [
      | no n ↦
          rw ((merge_correct digest f g v w).0 n, merge_one) (unchanged f p g v (λ q e. n (sym e)))
      | yes e ↦
          let (h, made, u) = (merge_correct digest f g v w).1 e in
          rw made (record {
            valid = u.valid;
            shape = u.shape;
            kept = u.left;
            gained = λ bytes q same few c. u.right bytes few c;
            only = λ j k. elim (ℕ_discrete (row_bit f.bits j) 1) [
              | yes here ↦ inl here
              | no n ↦ inr (ground arith, omega (arith, u.bits j, row_bit-lt_two f.bits j))
            ];
          })
    ])
  ]

  -- The result `h` of merging some peers' filters into `f`.
  record Merged (f h : BloomFilter) (m : Map BloomFilter) : Type 0 where
    valid : IsBloomFilter h
    shape : SameShape f h
    kept : (bytes : List ℕ) → Covers digest f bytes → Covers digest h bytes
    gained :
        (q : ℕ) (g : BloomFilter) (bytes : List ℕ)
        → TakesPart exclude m q g
        → g.num_bits ≡ f.num_bits
        → f.hash_count ≤ g.hash_count
        → Covers digest g bytes
        → Covers digest h bytes
    only :
        (j : ℕ)
        → row_bit h.bits j ≡ 1
        → (row_bit f.bits j ≡ 1)
          ⊎ ((q : ℕ) × (g : BloomFilter) × TakesPart exclude m q g × (row_bit g.bits j ≡ 1))

  merge_peers-Merged :
      (f : BloomFilter) (m : Map BloomFilter)
      → IsBloomFilter f
      → AllFilters m
      → Merged f (merge_peers exclude f m) m
  unfolding merge_peers
  merge_peers-Merged f [] v w = record {
    valid = v;
    shape = record { num_bits = refl; hash_count = refl };
    kept = λ bytes c. c;
    gained = λ q g bytes t. absurd t;
    only = λ j h. inl h;
  }
  merge_peers-Merged f ((p, g) ∷ m) v (a, w) =
      let o = merge_one-One f p g v a in
      let r = merge_peers-Merged (merge_one exclude f p g) m o.valid w in
      record {
        valid = r.valid;
        shape = record {
          num_bits = r.shape.num_bits ∙ o.shape.num_bits;
          hash_count = r.shape.hash_count ∙ o.shape.hash_count;
        };
        kept = λ bytes c. r.kept bytes (o.kept bytes c);
        gained = λ q k bytes t same few c. elim t [
          | inl (other, e, here) ↦
              r.kept bytes (o.gained bytes other (rw here same) (rw here few) (rw here c))
          | inr later ↦
              r.gained q k bytes later (same ∙ sym o.shape.num_bits)
                (omega (arith, o.shape.hash_count)) c
        ];
        only = λ j h. elim (r.only j h) [
          | inl before ↦ elim (o.only j before) [
            | inl old ↦ inl old
            | inr (other, e) ↦ inr (p, g, inl (other, refl, refl), e)
          ]
          | inr (q, k, t, e) ↦ inr (q, k, inr t, e)
        ];
      }

-- Some address of the set.
pub InSet : AddrSet → ℕ → Type 0
InSet [] a = ⊥
InSet ((d, u) ∷ m) a = (d ≡ a) ⊎ InSet m a

module _ (digest : List ℕ → List ℕ) where
  -- The result `g` of inserting a set into `f`.
  record AllIn (f g : BloomFilter) (m : AddrSet) : Type 0 where
    valid : IsBloomFilter g
    shape : SameShape f g
    kept : (bytes : List ℕ) → Covers digest f bytes → Covers digest g bytes
    gained : (a : ℕ) → InSet m a → Covers digest g (as_bytes a)
    only :
        (j : ℕ)
        → row_bit g.bits j ≡ 1
        → (row_bit f.bits j ≡ 1)
          ⊎ ((a : ℕ) × (k : ℕ) × InSet m a
              × (k < f.hash_count)
              × (hash digest f (as_bytes a) k ≡ j))

  insert_all-AllIn :
      (f : BloomFilter) (m : AddrSet)
      → IsBloomFilter f
      → (g : BloomFilter) × (insert_all digest f m ≡ some g) × AllIn f g m
  unfolding insert_all InSet
  insert_all-AllIn f [] v = (
    f,
    refl,
    record {
      valid = v;
      shape = record { num_bits = refl; hash_count = refl };
      kept = λ bytes c. c;
      gained = λ a t. absurd t;
      only = λ j h. inl h;
    },
  )
  insert_all-AllIn f ((d, u) ∷ m) v =
      let (h, e, w, s, there, more, only) = insert_correct digest f (as_bytes d) v in
      let (g, e', r) = insert_all-AllIn h m w in
      (
        g,
        rw (e, insert_all) e',
        record {
          valid = r.valid;
          shape = record {
            num_bits = r.shape.num_bits ∙ s.num_bits;
            hash_count = r.shape.hash_count ∙ s.hash_count;
          };
          kept = λ bytes c. r.kept bytes (more bytes c);
          gained = λ a t. elim t [
            | inl here ↦ rw (← here) (r.kept (as_bytes d) there)
            | inr later ↦ r.gained a later
          ];
          only = λ j k. elim (r.only j k) [
            | inl before ↦ elim (only j before) [
              | inl old ↦ inl old
              | inr (i, l, x) ↦ inr (d, i, inl refl, l, x)
            ]
            | inr (a, i, t, l, x) ↦ inr (
              a,
              i,
              inr t,
              omega (arith, s.hash_count, l),
              sym (hash-SameShape digest f h (as_bytes a) i s) ∙ x,
            )
          ];
        },
      )

  -- Where a bit of the outgoing filter comes from: one of the five hashes of an address of its own, or
  -- the filter of another peer.
  pub data Source (s : BloomState) (exclude : ℕ) (m : Map BloomFilter) (j : ℕ) : Type 0 where
    own :
        (k : ℕ)
        → k < 5
        → hash digest Filter.new (as_bytes s.own_node_addr) k ≡ j
        → Source s exclude m j
    dependent :
        (a k : ℕ)
        → InSet s.leaf_dependents a
        → k < 5
        → hash digest Filter.new (as_bytes a) k ≡ j
        → Source s exclude m j
    peer :
        (q : ℕ) (g : BloomFilter)
        → TakesPart exclude m q g
        → row_bit g.bits j ≡ 1
        → Source s exclude m j

  pub record IsOutgoing (s : BloomState) (exclude : ℕ) (m : Map BloomFilter) (f : BloomFilter)
      : Type 0 where
    pub valid : IsBloomFilter f
    pub own : Covers digest f (as_bytes s.own_node_addr)
    pub dependents : (a : ℕ) → InSet s.leaf_dependents a → Covers digest f (as_bytes a)
    pub peers :
        (q : ℕ) (g : BloomFilter) (bytes : List ℕ)
        → TakesPart exclude m q g
        → g.num_bits ≡ 8192
        → 5 ≤ g.hash_count
        → Covers digest g bytes
        → Covers digest f bytes
    pub sources : (j : ℕ) → row_bit f.bits j ≡ 1 → Source s exclude m j

  -- What a node's own addresses give, before any peer's filter.
  record IsBase (s : BloomState) (b : BloomFilter) : Type 0 where
    valid : IsBloomFilter b
    shape : SameShape Filter.new b
    own : Covers digest b (as_bytes s.own_node_addr)
    dependents : (a : ℕ) → InSet s.leaf_dependents a → Covers digest b (as_bytes a)
    sources :
        (exclude : ℕ) (m : Map BloomFilter) (j : ℕ) → row_bit b.bits j ≡ 1 → Source s exclude m j

  base_filter-IsBase :
      (s : BloomState) → (b : BloomFilter) × (base_filter digest s ≡ some b) × IsBase s b
  unfolding base_filter
  base_filter-IsBase s =
      let (a, e, va, sa, there, more, only) =
        insert_correct digest Filter.new (as_bytes s.own_node_addr) new-IsBloomFilter in
      let (b, e', rb) = insert_all-AllIn a s.leaf_dependents va in
      (
        b,
        rw (e, base_filter) e',
        record {
          valid = rb.valid;
          shape = record {
            num_bits = rb.shape.num_bits ∙ sa.num_bits;
            hash_count = rb.shape.hash_count ∙ sa.hash_count;
          };
          own = rb.kept (as_bytes s.own_node_addr) there;
          dependents = rb.gained;
          sources = λ exclude m j h. elim (rb.only j h) [
            | inr (d, k, t, l, x) ↦
                dependent d k t (omega (arith, sa.hash_count, new_lem.1, l))
                  (sym (hash-SameShape digest Filter.new a (as_bytes d) k sa) ∙ x)
            | inl before ↦ elim (only j before) [
              | inr (k, l, x) ↦ own k (omega (arith, new_lem.1, l)) x
              | inl old ↦ absurd (omega (arith, old, new_lem.2 j))
            ]
          ];
        },
      )

  -- When the filters of the peers are well formed, the filter for a peer is computed without a
  -- panic, covers this node, its leaf dependents and all that the filters of the other peers
  -- cover which have the default size and at least as many hashes, and has a bit set only if it
  -- is one of the five hashes of this node or of a leaf dependent, or is set in the filter of
  -- another peer.
  pub compute_outgoing_filter-IsOutgoing :
      (s : BloomState) (exclude : ℕ) (m : Map BloomFilter)
      → AllFilters m
      → (f : BloomFilter) × (compute_outgoing_filter digest s exclude m ≡ some f)
        × IsOutgoing s exclude m f
  unfolding compute_outgoing_filter
  compute_outgoing_filter-IsOutgoing s exclude m w =
      let (b, e, i) = base_filter-IsBase s in
      let r = merge_peers-Merged digest exclude b m i.valid w in
      (
        merge_peers exclude b m,
        rw (e, compute_outgoing_filter) refl,
        record {
          valid = r.valid;
          own = r.kept (as_bytes s.own_node_addr) i.own;
          dependents = λ d t. r.kept (as_bytes d) (i.dependents d t);
          peers = λ q g bytes t size hashes.
              r.gained q g bytes t (size ∙ sym (i.shape.num_bits ∙ new_lem.0))
                (omega (arith, hashes, i.shape.hash_count, new_lem.1));
          sources = λ j h. elim (r.only j h) [
            | inl before ↦ i.sources exclude m j before
            | inr (q, g, t, x) ↦ peer q g t x
          ];
        },
      )
