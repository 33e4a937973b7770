-- ===== src/Tree/State/Choice.antt =====
-- What `evaluate_parent` recommends.
use fips_native.Base.{
  ℕ, ◌≤◌, ◌≡◌, ◌≢◌, ◌⊎◌, refl, sym, ap, ◌∙◌, inl, inr, arith, [], ◌∷◌, true, false, ◌&&◌, Option,
  none, some, ltb, leb, ◌==◌, if◌then◌else◌, Bool-cases, Option-cases,
}
use fips_native.Base.Map.{Map, get, Distinct}
use fips_native.Tree.Coordinate.{TreeCoordinate, root_id, depth, contains}
use fips_native.Tree.State.{TreeState, is_root}
use fips_native.Tree.State.Parent.{
  FloatApi, smallest_root, takes_over, consider, link_cost, best_peer, is_empty, choose,
  accept_candidate, evaluate_parent,
}

-- Whether `r` is at most the root of every peer.
pub IsLeastRoot : Map TreeCoordinate → ℕ → Type 0
IsLeastRoot m r = (q : ℕ) (c : TreeCoordinate) → get m q ≡ some c → r ≤ root_id c

IsLeastRoot-step :
    (m : Map TreeCoordinate) (p r : ℕ) (c : TreeCoordinate)
    → r ≤ root_id c
    → IsLeastRoot m r
    → IsLeastRoot ((p, c) ∷ m) r
unfolding IsLeastRoot get
IsLeastRoot-step m p r c l k q d e = elim (Bool-cases (p == q)) [
  | inl t ↦ let value : c ≡ d = cc in rw (← value) l
  | inr f ↦ k q d cc
]

smallest_root-some :
    (m : Map TreeCoordinate) (r : ℕ)
    → (s : ℕ) × (smallest_root (some r) m ≡ some s) × (s ≤ r) × IsLeastRoot m s
unfolding smallest_root
smallest_root-some [] r = (r, refl, omega arith, none_peer r)
  where
    none_peer : (r : ℕ) → IsLeastRoot [] r
    none_peer r = unfold IsLeastRoot get in λ q c e. cc
smallest_root-some ((p, c) ∷ m) r =
    let (s, e, l, k) = smallest_root-some m (if ltb (root_id c) r then root_id c else r) in
    (s, e, ground arith, IsLeastRoot-step m p s c (ground arith) k)

least_root :
    (m : Map TreeCoordinate)
    → (smallest_root none m ≡ none) ⊎ ((r : ℕ) × (smallest_root none m ≡ some r) × IsLeastRoot m r)
unfolding smallest_root
least_root [] = inl refl
least_root ((p, c) ∷ m) =
    let (r, e, l, k) = smallest_root-some m (root_id c) in inr (r, e, IsLeastRoot-step m p r c l k)

module _ (f : FloatApi) where
  open f use {F}

  -- The cost of a candidate: the measured one, or 1.0 where no cost at all is measured.
  abbrev pub IsCost : Map F → ℕ → F → Type 0
  IsCost costs p x = (get costs p ≡ some x) ⊎ ((costs ≡ []) × (x ≡ f.one))

  link_cost-IsCost :
      (costs : Map F) (p : ℕ) (x : F) → link_cost f costs p ≡ some x → IsCost costs p x
  unfolding link_cost is_empty
  link_cost-IsCost [] p x h =
      let none_ : link_cost f [] p ≡ some f.one = unfold get in refl in inr (refl, cc)
  link_cost-IsCost (c ∷ costs) p x h = elim (Option-cases (get (c ∷ costs) p)) [
    | inl e ↦ let k : link_cost f (c ∷ costs) p ≡ none = rw (link_cost, e) refl in absurd cc
    | inr (y, e) ↦ let k : link_cost f (c ∷ costs) p ≡ some y = rw (link_cost, e) refl in inl cc
  ]

  -- A candidate: a peer whose path reaches the root and does not pass through this node.
  pub record IsCandidate (m : Map TreeCoordinate) (me root : ℕ) (costs : Map F) (p : ℕ)
      : Type 0 where
    pub coords : TreeCoordinate
    pub peer : get m p ≡ some coords
    pub reaches : root_id coords ≡ root
    pub loop_free : contains coords me ≡ false
    pub cost : F
    pub costs_that : IsCost costs p cost

  IsCandidate-step :
      (m : Map TreeCoordinate) (me root : ℕ) (costs : Map F) (p q : ℕ) (c : TreeCoordinate)
      → get m q ≡ none
      → IsCandidate m me root costs p
      → IsCandidate ((q, c) ∷ m) me root costs p
  unfolding get
  IsCandidate-step m me root costs p q c h k = record {
    coords = k.coords;
    reaches = k.reaches;
    loop_free = k.loop_free;
    cost = k.cost;
    costs_that = k.costs_that;
    peer = elim (Bool-cases (q == p)) [
      | inl t ↦ let key : q ≡ p = ground arith in absurd (clash (sym (ap (get m) key) ∙ h))
      | inr n ↦ rw n k.peer
    ];
  }
    where
      clash : get m p ≢ none
      clash e = let x : some k.coords ≡ none = sym k.peer ∙ e in cc

  module _ (me root : ℕ) (costs : Map F) where
    -- One round keeps the best, or takes a peer that is a candidate.
    consider_cases :
        (m : Map TreeCoordinate) (best : Option (ℕ × F)) (p : ℕ) (c : TreeCoordinate)
        → (consider f me root costs best p c ≡ best)
          ⊎ ((e : F) × (consider f me root costs best p c ≡ some (p, e))
              × IsCandidate ((p, c) ∷ m) me root costs p)
    unfolding consider get
    consider_cases m best p c = elim (Bool-cases (root_id c == root)) [
      | inr away ↦ rw away (inl refl)
      | inl same ↦ rw same (elim (Bool-cases (contains c me)) [
        | inl loop ↦ rw loop (inl refl)
        | inr free ↦ rw free (elim (Option-cases (link_cost f costs p)) [
          | inl unknown ↦ rw unknown (inl refl)
          | inr (x, known) ↦
              rw known (elim (Bool-cases (takes_over f best p (f.add (f.of_nat (depth c)) x))) [
                | inr worse ↦ rw worse (inl refl)
                | inl better ↦ rw better (
                    inr (
                      f.add (f.of_nat (depth c)) x,
                      refl,
                      record {
                        coords = c;
                        peer = ground arith;
                        reaches = ground arith;
                        loop_free = free;
                        cost = x;
                        costs_that = link_cost-IsCost costs p x known;
                      },
                    ))
              ])
        ])
      ])
    ]

    best_peer-IsCandidate :
        (m : Map TreeCoordinate) (best : Option (ℕ × F))
        → Distinct m
        → (best_peer f me root costs best m ≡ best)
          ⊎ ((p : ℕ) × (e : F) × (best_peer f me root costs best m ≡ some (p, e))
              × IsCandidate m me root costs p)
    unfolding best_peer
    best_peer-IsCandidate [] best u = inl refl
    best_peer-IsCandidate ((p, c) ∷ m) best u =
        elim (best_peer-IsCandidate m (consider f me root costs best p c) (u.1)) [
          | inr (q, e, g, k) ↦ inr (q, e, g, IsCandidate-step m me root costs q p c (u.0) k)
          | inl same ↦ elim (consider_cases m best p c) [
            | inl kept ↦ inl (same ∙ kept)
            | inr (e, g, k) ↦ inr (p, e, same ∙ g, k)
          ]
        ]

  -- What a recommendation guarantees.
  pub record IsGoodParent {S : Type 0} (s : TreeState S F) (costs : Map F) (p : ℕ) : Type 0 where
    pub smallest : ℕ
    pub least : IsLeastRoot s.peer_ancestry smallest
    pub candidate : IsCandidate s.peer_ancestry s.my_node_addr smallest costs p
    pub change : (is_root s ≡ true) ⊎ (s.my_declaration.parent_id ≢ p)

  accept_candidate-some :
      {S : Type 0} (s : TreeState S F) (costs : Map F) (now later r p : ℕ) (e : F) (q : ℕ)
      → accept_candidate f s costs now later r p e ≡ some q
      → (q ≡ p) × ((is_root s ≡ true) ⊎ (s.my_declaration.parent_id ≢ p))
  unfolding accept_candidate
  accept_candidate-some s costs now later r p e q h = ground arith

  -- With one path for each peer, a recommended parent is a peer whose path reaches the smallest
  -- root that any peer reaches and does not pass through this node, whose cost is measured
  -- unless no cost at all is, and it is not the declared parent of a node that is not its own
  -- root.
  pub evaluate_parent-IsGoodParent :
      {S : Type 0} (s : TreeState S F) (costs : Map F) (now later p : ℕ)
      → Distinct s.peer_ancestry
      → evaluate_parent f s costs now later ≡ some p
      → IsGoodParent s costs p
  unfolding evaluate_parent
  evaluate_parent-IsGoodParent s costs now later p u = elim (least_root s.peer_ancestry) [
    | inl alone ↦ rw (evaluate_parent, alone) (λ h. cc)
    | inr (r, e, least) ↦
        rw (evaluate_parent, e)
          (elim (Bool-cases (leb s.my_node_addr r && is_root s)) [
            | inl stays ↦ rw stays (λ h. cc)
            | inr open_ ↦
                rw open_
                  (elim (best_peer-IsCandidate s.my_node_addr r costs s.peer_ancestry none u) [
                    | inl nobody ↦ rw (nobody, choose) (λ h. cc)
                    | inr (q, x, found, k) ↦
                        rw (found, choose)
                          (λ h.
                            let (same, change) =
                              accept_candidate-some s costs now later r q x p h in
                            record {
                              smallest = r;
                              least = least;
                              candidate = rw same k;
                              change = rw same change;
                            })
                  ])
          ])
  ]
