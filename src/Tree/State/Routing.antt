-- ===== src/Tree/State/Routing.antt =====
-- `find_next_hop`: greedy routing along the tree, and that it gets closer.
use fips_native.Base.{
  ℕ, ◌≤◌, ◌<◌, ◌≡◌, ◌≢◌, ◌⊎◌, refl, inl, inr, arith, [], ◌∷◌, Bool, true, ◌||◌, ◌&&◌, Option, none,
  some, ltb, ◌==◌, if◌then◌else◌, Bool-cases, ◌∙◌,
}
use fips_native.Base.Map.{Map, get, Distinct}
use fips_native.Tree.Coordinate.{TreeCoordinate, root_id, distance_to}
use fips_native.Tree.State.{TreeState}

-- `dominated`: whether a peer at some distance takes the place of the best so far.
unfoldable pub takes_over : Option (ℕ × ℕ) → ℕ → ℕ → Bool
takes_over none p d = true
takes_over (some (b, e)) p d = ltb d e || (d == e && ltb p b)

-- The loop over `peer_ancestry`.
unfoldable closest : TreeCoordinate → Option (ℕ × ℕ) → Map TreeCoordinate → Option (ℕ × ℕ)
unfolding takes_over
closest dest best [] = best
closest dest best ((p, c) ∷ m) =
    closest dest
      (if takes_over best p (distance_to c dest) then some (p, distance_to c dest) else best) m

unfoldable closer_than : ℕ → Option (ℕ × ℕ) → Option ℕ
closer_than mine none = none
closer_than mine (some (p, d)) = if ltb d mine then some p else none

unfoldable pub find_next_hop : {S F : Type 0} → TreeState S F → TreeCoordinate → Option ℕ
unfolding closest closer_than
find_next_hop s dest =
    if root_id s.my_coords == root_id dest
    then closer_than (distance_to s.my_coords dest) (closest dest none s.peer_ancestry)
    else none

-- `(p, d)` is as good as `(q, e)`: closer, or as close with an address that is not larger.
Beats : ℕ × ℕ → ℕ × ℕ → Type 0
Beats (p, d) (q, e) = (d < e) ⊎ ((d ≡ e) × (p ≤ q))

Beats-trans : (x y z : ℕ × ℕ) → Beats x y → Beats y z → Beats x z
unfolding Beats
Beats-trans (p, d) (q, e) (r, f) h k = ground arith

Beats-refl : (x : ℕ × ℕ) → Beats x x
unfolding Beats
Beats-refl (p, d) = ground arith

-- A peer that stands in the map at the distance that is claimed.
pub IsPeer : TreeCoordinate → Map TreeCoordinate → ℕ × ℕ → Type 0
IsPeer dest m y = (c : TreeCoordinate) × (get m y.0 ≡ some c) × (y.1 ≡ distance_to c dest)

-- At least as good as every peer of the map.
pub BeatsAll : TreeCoordinate → Map TreeCoordinate → ℕ × ℕ → Type 0
BeatsAll dest m y =
    (q : ℕ) (c : TreeCoordinate) → get m q ≡ some c → Beats y (q, distance_to c dest)

-- One round keeps the better of two.
better :
    (x : ℕ × ℕ) (p d : ℕ)
    → (z : ℕ × ℕ) × ((if takes_over (some x) p d then some (p, d) else some x) ≡ some z)
      × Beats z x
      × Beats z (p, d)
      × ((z ≡ x) ⊎ (z ≡ (p, d)))
unfolding takes_over Beats
better (b, e) p d = elim (Bool-cases (takes_over (some (b, e)) p d)) [
  | inl h ↦ ((p, d), rw h refl, ground arith, ground arith, inr refl)
  | inr h ↦ ((b, e), rw h refl, ground arith, ground arith, inl refl)
]

BeatsAll-step :
    (dest c : TreeCoordinate) (p : ℕ) (m : Map TreeCoordinate) (y : ℕ × ℕ)
    → Beats y (p, distance_to c dest)
    → BeatsAll dest m y
    → BeatsAll dest ((p, c) ∷ m) y
unfolding BeatsAll get
BeatsAll-step dest c p m y h k q c' e = elim (Bool-cases (p == q)) [
  | inl t ↦ let key : p ≡ q = ground arith in let value : c ≡ c' = cc in rw (← key, ← value) h
  | inr f ↦ k q c' (cc)
]

IsPeer-step :
    (dest c : TreeCoordinate) (p : ℕ) (m : Map TreeCoordinate) (y : ℕ × ℕ)
    → get m p ≡ none
    → IsPeer dest m y
    → IsPeer dest ((p, c) ∷ m) y
unfolding IsPeer get
IsPeer-step dest c p m y h (c', e, d) = elim (Bool-cases (p == y.0)) [
  | inl t ↦ let key : p ≡ y.0 = ground arith in cc
  | inr f ↦ (c', rw f e, d)
]

IsPeer-first :
    (dest c : TreeCoordinate) (p : ℕ) (m : Map TreeCoordinate) (y : ℕ × ℕ)
    → y ≡ (p, distance_to c dest)
    → IsPeer dest ((p, c) ∷ m) y
unfolding IsPeer get
IsPeer-first dest c p m y e = rw e (c, ground arith, refl)

IsPeer-some :
    (dest c : TreeCoordinate) (p : ℕ) (m : Map TreeCoordinate) (y : ℕ × ℕ)
    → get m p ≡ none
    → (y ≡ (p, distance_to c dest)) ⊎ IsPeer dest m y
    → IsPeer dest ((p, c) ∷ m) y
IsPeer-some dest c p m y h (inl e) = IsPeer-first dest c p m y e
IsPeer-some dest c p m y h (inr k) = IsPeer-step dest c p m y h k

closest-some :
    (dest : TreeCoordinate) (m : Map TreeCoordinate) (x : ℕ × ℕ)
    → Distinct m
    → (y : ℕ × ℕ) × (closest dest (some x) m ≡ some y)
      × Beats y x
      × BeatsAll dest m y
      × ((y ≡ x) ⊎ IsPeer dest m y)
unfolding closest
closest-some dest [] x u = (x, refl, Beats-refl x, (unfold BeatsAll get in λ q c e. cc), inl refl)
closest-some dest ((p, c) ∷ m) x u =
    let (z, e, zx, zp, which) = better x p (distance_to c dest) in
    let (y, f, yz, all, from) = closest-some dest m z (u.1) in
    (
      y,
      rw e f,
      Beats-trans y z x yz zx,
      BeatsAll-step dest c p m y (Beats-trans y z (p, distance_to c dest) yz zp) all,
      elim from [
        | inr inside ↦ inr (IsPeer-step dest c p m y (u.0) inside)
        | inl same ↦ elim which [
          | inl old ↦ inl (cc)
          | inr new ↦ inr (IsPeer-first dest c p m y (same ∙ new))
        ]
      ],
    )

-- The next hop is a peer strictly closer to the destination than this node, in the tree of the
-- destination, and no peer is closer or as close with a smaller address; without a next hop, the
-- destination is in another tree or no peer is closer than this node.
pub data NextHop {S F : Type 0} (s : TreeState S F) (dest : TreeCoordinate)
    : Option ℕ → Type 0 where
  hop :
      (y : ℕ × ℕ)
      → root_id s.my_coords ≡ root_id dest
      → IsPeer dest s.peer_ancestry y
      → y.1 < distance_to s.my_coords dest
      → BeatsAll dest s.peer_ancestry y
      → NextHop s dest (some y.0)
  elsewhere : root_id s.my_coords ≢ root_id dest → NextHop s dest none
  stuck :
      ((q : ℕ) (c : TreeCoordinate)
        → get s.peer_ancestry q ≡ some c
        → distance_to s.my_coords dest ≤ distance_to c dest)
      → NextHop s dest none

chosen :
    {S F : Type 0} (s : TreeState S F) (dest : TreeCoordinate) (y : ℕ × ℕ)
    → root_id s.my_coords ≡ root_id dest
    → IsPeer dest s.peer_ancestry y
    → BeatsAll dest s.peer_ancestry y
    → NextHop s dest (closer_than (distance_to s.my_coords dest) (some y))
unfolding closer_than
chosen s dest (p, d) e peer all = elim (Bool-cases (ltb d (distance_to s.my_coords dest))) [
  | inl less ↦ rw less (hop (p, d) e peer (ground arith) all)
  | inr more ↦ rw more (stuck (λ q c k. unfold BeatsAll Beats in (ground (arith, all q c k))))
]

none_peer : (q : ℕ) (c : TreeCoordinate) → get {V = TreeCoordinate} [] q ≢ some c
unfolding get
none_peer q c k = cc

closest-NextHop :
    {S F : Type 0} (s : TreeState S F) (dest : TreeCoordinate) (m : Map TreeCoordinate)
    → m ≡ s.peer_ancestry
    → Distinct m
    → root_id s.my_coords ≡ root_id dest
    → NextHop s dest (closer_than (distance_to s.my_coords dest) (closest dest none m))
unfolding closest closer_than
closest-NextHop s dest [] e u same = stuck (λ q c k. absurd (none_peer q c (rw e k)))
closest-NextHop s dest ((p, c) ∷ m) e u same =
    let (y, f, first, all, from) = closest-some dest m (p, distance_to c dest) (u.1) in
    rw f (
      chosen s dest y same (rw (← e) (IsPeer-some dest c p m y (u.0) from))
        (rw (← e) (BeatsAll-step dest c p m y first all)))

-- With one path for each peer, the next hop is a peer strictly closer to the destination than
-- this node and no peer is closer, or as close with a smaller address; without a next hop the
-- destination is in another tree or no peer is closer.
pub find_next_hop-NextHop :
    {S F : Type 0} (s : TreeState S F) (dest : TreeCoordinate)
    → Distinct s.peer_ancestry
    → NextHop s dest (find_next_hop s dest)
unfolding find_next_hop
find_next_hop-NextHop s dest u = elim (Bool-cases (root_id s.my_coords == root_id dest)) [
  | inl same ↦ rw same (closest-NextHop s dest s.peer_ancestry refl u (ground arith))
  | inr other ↦ rw other (elsewhere (ground arith))
]
