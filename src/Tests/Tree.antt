-- ===== src/Tests/Tree.antt =====
-- The spanning tree on a node with two peers, and addresses that are small numbers.
use fips_native.Base.{
  ℕ, ◌+◌, ◌-◌, ◌^◌, ◌≤◌, ◌≡◌, ◌⊎◌, refl, arith, suc, [], ◌∷◌, true, false, none, some, ltb, ◌==◌,
  if◌then◌else◌,
}
use fips_native.Base.Map.{get}
use fips_native.Tree.Coordinate.{
  TreeCoordinate, addr_only, entries, distance_to, root_id, contains, depth, root_with_meta,
}
use fips_native.Tree.Coordinate.Distance.{distance_to_triangle}
use fips_native.Tree.Declaration.{
  ParentDeclaration, Identity, IsDeclaration, signing_bytes_injective,
}
use fips_native.Tree.State.{
  TreeState, update_peer, set_parent, recompute_coords, record_parent_switch, is_flap_dampened,
}
use fips_native.Tree.State.Parent.{FloatApi, evaluate_parent, link_cost, is_empty, takes_over}
use fips_native.Tree.State.Choice.{IsGoodParent, evaluate_parent-IsGoodParent}
use fips_native.Tree.State.Routing.{NextHop, find_next_hop, find_next_hop-NextHop}
use fips_native.Tree.State.Steps.{stay, is_flap_dampened-once}
use fips_native.Tree.State.Updates.{update_peer_correct, set_parent-recompute_coords}

abbrev path : ℕ → TreeCoordinate
path a = record { first = addr_only a; rest = addr_only 1 ∷ [] }

distance_to_triangle_example :
    distance_to (path 5) (path 7) ≤ distance_to (path 5) (path 6) + distance_to (path 6) (path 7)
unfolding root_id
distance_to_triangle_example = distance_to_triangle (path 5) (path 6) (path 7) refl refl

abbrev declared : ℕ → ParentDeclaration ℕ
declared a = record {
  node_addr = a;
  parent_id = 1;
  sequence = 3;
  timestamp = 100;
  signature = none;
}

declared-IsDeclaration : IsDeclaration (declared 5)
declared-IsDeclaration = record {
  node = omega arith;
  parent = omega arith;
  sequence = omega arith;
  timestamp = omega arith;
}

signing_bytes_injective_example :
    ((declared 5).node_addr ≡ (declared 5).node_addr)
    × ((declared 5).parent_id ≡ (declared 5).parent_id)
    × ((declared 5).sequence ≡ (declared 5).sequence)
    × ((declared 5).timestamp ≡ (declared 5).timestamp)
signing_bytes_injective_example =
    signing_bytes_injective (declared 5) (declared 5) declared-IsDeclaration declared-IsDeclaration
      refl

abbrev toy_identity : Identity ℕ
toy_identity = record { node_addr = 5; sign = λ m. 8 }

-- `f64` by numbers.
abbrev toy_floats : FloatApi
toy_floats = record {
  F = ℕ;
  of_nat = λ n. n;
  zero = 0;
  one = 1;
  infinity = 10 ^ 9;
  add = λ a b. a + b;
  sub = λ a b. a - b;
  mul = λ a b. a;
  lt = ltb;
  eq = ◌==◌;
}

-- Node 6, its own root, with peers 5 and 7 below node 1.
abbrev toy_state : TreeState ℕ ℕ
toy_state = record {
  my_node_addr = 6;
  my_declaration = record {
    node_addr = 6;
    parent_id = 6;
    sequence = 1;
    timestamp = 100;
    signature = none;
  };
  my_coords = root_with_meta 6 1 100;
  root = 6;
  peer_declarations = (5, declared 5) ∷ (7, declared 7) ∷ [];
  peer_ancestry = (5, path 5) ∷ (7, path 7) ∷ [];
  parent_hysteresis = 0;
  hold_down = 0;
  last_parent_switch = none;
  flap_count = 0;
  flap_window_start = none;
  flap_dampening_until = some 50;
  flap_threshold = 4;
  flap_window = 60;
  flap_dampening_duration = 120;
}

find_next_hop-NextHop_example : NextHop toy_state (path 7) (find_next_hop toy_state (path 7))
unfolding get
find_next_hop-NextHop_example = find_next_hop-NextHop toy_state (path 7) (refl, (refl, tt))

-- Of the peers 5 and 7, only 7 has a measured cost.
evaluate_parent-IsGoodParent_example : IsGoodParent toy_floats toy_state ((7, 3) ∷ []) 7
unfolding get evaluate_parent root_id contains link_cost is_empty takes_over depth
evaluate_parent-IsGoodParent_example =
    evaluate_parent-IsGoodParent toy_floats toy_state ((7, 3) ∷ []) 10 11 7 (refl, (refl, tt)) refl

is_flap_dampened-once_example :
    (is_flap_dampened toy_state 60 ≡ false) × ((record_parent_switch toy_state 60).0 ≡ false)
is_flap_dampened-once_example =
    is_flap_dampened-once toy_floats toy_state toy_state 50 60 refl stay (omega arith)

update_peer_correct_example :
    ((old : ParentDeclaration ℕ)
      → get toy_state.peer_declarations 5 ≡ some old
      → 3 ≤ old.sequence
      → update_peer toy_state (declared 5) (path 5) ≡ (false, toy_state))
    × ((get toy_state.peer_declarations 5 ≡ none)
          ⊎ ((old : ParentDeclaration ℕ) × (get toy_state.peer_declarations 5 ≡ some old)
              × (suc old.sequence ≤ 3))
        → ((update_peer toy_state (declared 5) (path 5)).0 ≡ true)
          × ((q : ℕ)
              → get (update_peer toy_state (declared 5) (path 5)).1.peer_declarations q
                ≡ (if 5 == q then some (declared 5) else get toy_state.peer_declarations q))
          × ((q : ℕ)
              → get (update_peer toy_state (declared 5) (path 5)).1.peer_ancestry q
                ≡ (if 5 == q then some (path 5) else get toy_state.peer_ancestry q)))
update_peer_correct_example = update_peer_correct toy_state (declared 5) (path 5)

set_parent-recompute_coords_example :
    ((recompute_coords ((set_parent toy_state 5 2 200 10 11).1)).my_coords ≡ record {
      first = record { node_addr = 6; sequence = 2; timestamp = 200 };
      rest = entries (path 5);
    })
    × ((recompute_coords ((set_parent toy_state 5 2 200 10 11).1)).root ≡ root_id (path 5))
unfolding get
set_parent-recompute_coords_example =
    set_parent-recompute_coords toy_state 5 2 200 10 11 (path 5) (omega arith) refl
