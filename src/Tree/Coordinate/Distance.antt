-- ===== src/Tree/Coordinate/Distance.antt =====
-- `TreeCoordinate::distance_to` is the distance of a tree: a metric on the paths to one root.
use fips_native.Base.{
  ℕ, ◌+◌, ◌*◌, ◌≤◌, ◌<◌, ◌≡◌, ◌↔◌, ◌⊎◌, refl, sym, ap, ◌∙◌, arith, List, [], ◌∷◌, ◌++◌, map, length,
  length-append, length-map, inl, inr,
}
use mathlib.Core.List.{reverse, reverse-cons, reverse-reverse}
use fips_native.Tree.Coordinate.{
  TreeCoordinate, node_addrs, last_of, root_id, depth, count_common, lca_depth, distance_to,
}

count_common_comm : (xs ys : List ℕ) → count_common xs ys ≡ count_common ys xs
unfolding count_common
count_common_comm [] [] = refl
count_common_comm [] (y ∷ ys) = refl
count_common_comm (x ∷ xs) [] = refl
count_common_comm (x ∷ xs) (y ∷ ys) = ground (arith, count_common_comm xs ys)

count_common-le : (xs ys : List ℕ) → count_common xs ys ≤ length xs
unfolding count_common
count_common-le [] ys = omega arith
count_common-le (x ∷ xs) [] = omega arith
count_common-le (x ∷ xs) (y ∷ ys) = ground (arith, count_common-le xs ys)

count_common_self : (xs : List ℕ) → count_common xs xs ≡ length xs
unfolding count_common
count_common_self [] = refl
count_common_self (x ∷ xs) = ground (arith, count_common_self xs)

-- Two lists that agree on all of their places are equal.
count_common_full :
    (xs ys : List ℕ) → length xs ≤ count_common xs ys → length ys ≤ count_common xs ys → xs ≡ ys
unfolding count_common
count_common_full [] [] h k = refl
count_common_full [] (y ∷ ys) h k = absurd (omega arith)
count_common_full (x ∷ xs) [] h k = absurd (omega arith)
count_common_full (x ∷ xs) (y ∷ ys) h k = ground (arith, count_common_full xs ys)

-- What two pairs share, the outer pair shares.
count_common_triangle :
    (xs ys zs : List ℕ)
    → (count_common xs ys ≤ count_common xs zs) ⊎ (count_common ys zs ≤ count_common xs zs)
unfolding count_common
count_common_triangle [] ys zs = inl (omega arith)
count_common_triangle (x ∷ xs) [] zs = inl (omega arith)
count_common_triangle (x ∷ xs) (y ∷ ys) [] = inr (omega arith)
count_common_triangle (x ∷ xs) (y ∷ ys) (z ∷ zs) = ground (arith, count_common_triangle xs ys zs)

length-reverse : (xs : List ℕ) → length (reverse xs) ≡ length xs
length-reverse [] = refl
length-reverse (x ∷ xs) =
    omega
      (arith, ap length (reverse-cons x xs), length-append (reverse xs) (x ∷ []), length-reverse xs)

-- The reversed path starts at the root.
reverse-last_of : (x : ℕ) (xs : List ℕ) → (t : List ℕ) × (reverse (x ∷ xs) ≡ last_of x xs ∷ t)
reverse-last_of x [] = ([], refl)
reverse-last_of x (y ∷ ys) =
    let (t, e) = reverse-last_of y ys in
    (t ++ x ∷ [], reverse-cons x (y ∷ ys) ∙ ap (λ (l : List ℕ). l ++ x ∷ []) e)

abbrev path : TreeCoordinate → List ℕ
path c = reverse (node_addrs c)

abbrev shared : TreeCoordinate → TreeCoordinate → ℕ
shared c d = count_common (path c) (path d)

shared_pos : (c d : TreeCoordinate) → root_id c ≡ root_id d → 0 < shared c d
unfolding root_id count_common
shared_pos c d e =
    let (t, p) = reverse-last_of c.first.node_addr (map (λ x. x.node_addr) c.rest) in
    let (u, q) = reverse-last_of d.first.node_addr (map (λ x. x.node_addr) d.rest) in
    rw (p, q, count_common) (ground arith)

length-path : (c : TreeCoordinate) → length (path c) ≡ depth c + 1
unfolding depth
length-path c = length-reverse (node_addrs c) ∙ omega (arith, length-map c.rest (λ e. e.node_addr))

-- Under one root the distance counts the steps outside the shared part of the two paths.
distance_to_lem :
    (c d : TreeCoordinate)
    → root_id c ≡ root_id d
    → distance_to c d + 2 * shared c d ≡ length (path c) + length (path d)
unfolding distance_to lca_depth
distance_to_lem c d e = ground (
  arith,
  shared_pos c d e,
  length-path c,
  length-path d,
  count_common-le (path c) (path d),
  count_common-le (path d) (path c),
  count_common_comm (path c) (path d),
)

-- Distances are symmetric.
pub distance_to_comm : (c d : TreeCoordinate) → distance_to c d ≡ distance_to d c
unfolding distance_to lca_depth
distance_to_comm c d = ground (arith, count_common_comm (path c) (path d))

last_or : List ℕ → ℕ
last_or [] = 0
last_or (x ∷ xs) = last_of x xs

root_id-eq : (c d : TreeCoordinate) → node_addrs c ≡ node_addrs d → root_id c ≡ root_id d
unfolding root_id last_or
root_id-eq c d e = ap last_or e

-- A distance is zero exactly between equal paths.
pub distance_to-zero :
    (c d : TreeCoordinate) → (distance_to c d ≡ 0) ↔ (node_addrs c ≡ node_addrs d)
distance_to-zero c d = (forth, back)
  where
    same_root : distance_to c d ≡ 0 → root_id c ≡ root_id d
    same_root h = unfold distance_to in ground arith

    forth : distance_to c d ≡ 0 → node_addrs c ≡ node_addrs d
    forth h =
        let l = distance_to_lem c d (same_root h) in
        let p = count_common-le (path c) (path d) in
        let q = count_common-le (path d) (path c) in
        let k = count_common_comm (path c) (path d) in
        sym (reverse-reverse (node_addrs c))
        ∙ ap reverse (count_common_full (path c) (path d) (omega arith) (omega arith))
        ∙ reverse-reverse (node_addrs d)

    back : node_addrs c ≡ node_addrs d → distance_to c d ≡ 0
    back e =
        let l = distance_to_lem c d (root_id-eq c d e) in
        let k : shared c d ≡ length (path c) =
          ap (λ (xs : List ℕ). count_common (path c) (reverse xs)) (sym e)
          ∙ count_common_self (path c) in
        let m : length (path c) ≡ length (path d) = ap (λ (xs : List ℕ). length (reverse xs)) e in
        omega arith

-- Between three paths to one root, distances obey the triangle inequality.
pub distance_to_triangle :
    (c d e : TreeCoordinate)
    → root_id c ≡ root_id d
    → root_id d ≡ root_id e
    → distance_to c e ≤ distance_to c d + distance_to d e
distance_to_triangle c d e p q = omega (
  arith,
  distance_to_lem c d p,
  distance_to_lem d e q,
  distance_to_lem c e (p ∙ q),
  count_common_triangle (path c) (path d) (path e),
  count_common-le (path c) (path d),
  count_common-le (path d) (path c),
  count_common_comm (path c) (path d),
  count_common-le (path d) (path e),
  count_common-le (path e) (path d),
  count_common_comm (path d) (path e),
)
