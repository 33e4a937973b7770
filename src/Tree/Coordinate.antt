-- ===== src/Tree/Coordinate.antt =====
-- fips/src/tree/coordinate.rs: a node's path to the root, and distances along the tree.
-- The vector of a `TreeCoordinate` is never empty (its constructors see to it, and the field is
-- private), so it is a first entry and the others. An address is a number (see Codec.Bytes).
pub mod Distance
use fips_native.Base.{
  ℕ, zero, suc, ◌+◌, ◌-◌, ◌^◌, List, [], ◌∷◌, ◌++◌, map, Bool, true, false, ◌||◌, Option, none,
  some, ◌==◌, if◌then◌else◌, length, get_elem?, drop, any,
}
use mathlib.Core.List.{reverse}
use mathlib.Core.Option

pub record CoordEntry : Type 0 where
  pub node_addr : ℕ
  pub sequence : ℕ
  pub timestamp : ℕ

abbrev pub addr_only : ℕ → CoordEntry
addr_only a = record { node_addr = a; sequence = 0; timestamp = 0 }

pub record TreeCoordinate : Type 0 where
  pub first : CoordEntry
  pub rest : List CoordEntry

-- fips/src/tree/mod.rs, less the variant that wraps an `IdentityError`.
pub data TreeError : Type 0 where
  empty_coordinate : TreeError
  ancestry_not_to_root : TreeError
  invalid_signature : ℕ → TreeError
  sequence_regression : ℕ → ℕ → TreeError
  parent_not_peer : ℕ → TreeError

pub data TreeResult {ℓ} (A : Type ℓ) : Type ℓ where
  ok : A → TreeResult A
  err : TreeError → TreeResult A

abbrev pub entries : TreeCoordinate → List CoordEntry
entries c = c.first ∷ c.rest

unfoldable pub new : List CoordEntry → TreeResult TreeCoordinate
new [] = err empty_coordinate
new (e ∷ es) = ok (record { first = e; rest = es })

unfoldable pub from_addrs : List ℕ → TreeResult TreeCoordinate
from_addrs [] = err empty_coordinate
from_addrs (a ∷ more) = ok (record { first = addr_only a; rest = map addr_only more })

abbrev pub root_with_meta : ℕ → ℕ → ℕ → TreeCoordinate
root_with_meta a s t = record {
  first = record { node_addr = a; sequence = s; timestamp = t };
  rest = [];
}

abbrev pub root : ℕ → TreeCoordinate
root a = record { first = addr_only a; rest = [] }

abbrev pub node_addr : TreeCoordinate → ℕ
node_addr c = c.first.node_addr

abbrev pub node_addrs : TreeCoordinate → List ℕ
node_addrs c = map (λ e. e.node_addr) (entries c)

-- The last of the addresses `a ∷ more`.
abbrev pub last_of : ℕ → List ℕ → ℕ
last_of a [] = a
last_of a (b ∷ bs) = last_of b bs

unfoldable pub root_id : TreeCoordinate → ℕ
root_id c = last_of c.first.node_addr (map (λ e. e.node_addr) c.rest)

unfoldable pub parent_id : TreeCoordinate → ℕ
parent_id c = elim (get_elem? (entries c) 1) [ none ↦ c.first.node_addr | some e ↦ e.node_addr ]

unfoldable pub depth : TreeCoordinate → ℕ
depth c = length (entries c) - 1

unfoldable pub is_root : TreeCoordinate → Bool
is_root c = length (entries c) == 1

-- `for (a, b) in self_rev.zip(other_rev)`: counts until the first pair that differs.
unfoldable pub count_common : List ℕ → List ℕ → ℕ
count_common [] bs = 0
count_common (a ∷ more) [] = 0
count_common (a ∷ more) (b ∷ bs) = if a == b then suc (count_common more bs) else 0

-- `common.saturating_sub(1)`.
unfoldable pub lca_depth : TreeCoordinate → TreeCoordinate → ℕ
lca_depth c d = count_common (reverse (node_addrs c)) (reverse (node_addrs d)) - 1

abbrev usize_max : ℕ
usize_max = 2 ^ 64 - 1

unfoldable pub distance_to : TreeCoordinate → TreeCoordinate → ℕ
distance_to c d =
    if root_id c == root_id d
    then (depth c - lca_depth c d) + (depth d - lca_depth c d)
    else usize_max

-- The loop of `lca`, with the last common address so far.
unfoldable last_common : Option ℕ → List ℕ → List ℕ → Option ℕ
last_common l [] bs = l
last_common l (a ∷ more) [] = l
last_common l (a ∷ more) (b ∷ bs) =
    let next = last_common (some a) more bs in if a == b then next else l

unfoldable lca : TreeCoordinate → TreeCoordinate → Option ℕ
lca c d = last_common none (reverse (node_addrs c)) (reverse (node_addrs d))

unfoldable has_ancestor : TreeCoordinate → ℕ → Bool
has_ancestor c a = any (λ b. b == a) (drop 1 (node_addrs c))

unfoldable pub contains : TreeCoordinate → ℕ → Bool
contains c a = any (λ b. b == a) (node_addrs c)

unfoldable ancestor_at : TreeCoordinate → ℕ → Option ℕ
ancestor_at c k = elim (get_elem? (entries c) k) [ none ↦ none | some e ↦ some e.node_addr ]
