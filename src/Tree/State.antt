-- ===== src/Tree/State.antt =====
-- fips/src/tree/state.rs: `TreeState`, a node's view of the spanning tree.
-- An `Instant` is a number of nanoseconds since some start and a `Duration` a number of them;
-- each call of `Instant::now` or of the system clock is an argument. The operations on `f64` are a
-- parameter (`FloatApi`): nothing below depends on their laws.

pub mod Routing
pub mod Parent
pub mod Steps
pub mod Choice
pub mod Updates
use fips_native.Base.{
  ℕ, zero, suc, ◌+◌, ◌-◌, ◌*◌, ◌%◌, ◌^◌, List, [], ◌∷◌, Bool, true, false, ◌||◌, ◌&&◌, not, Option,
  none, some, ltb, leb, ◌==◌, if◌then◌else◌, is_some,
}
use fips_native.Base.Map.{Map, get, insert, remove, contains_key}
use fips_native.Tree.Coordinate.{
  CoordEntry, TreeCoordinate, entries, root_with_meta, root_id, TreeResult, ok, err, distance_to,
}
use fips_native.Tree.Declaration
use fips_native.Tree.Declaration.{ParentDeclaration, Identity, self_root, is_fresher_than}

abbrev from_secs : ℕ → ℕ
from_secs s = s * 10 ^ 9

pub record TreeState (S F : Type 0) : Type 0 where
  pub my_node_addr : ℕ
  pub my_declaration : ParentDeclaration S
  pub my_coords : TreeCoordinate
  pub root : ℕ
  pub peer_declarations : Map (ParentDeclaration S)
  pub peer_ancestry : Map TreeCoordinate
  pub parent_hysteresis : F
  pub hold_down : ℕ
  pub last_parent_switch : Option ℕ
  pub flap_count : ℕ
  pub flap_window_start : Option ℕ
  pub flap_dampening_until : Option ℕ
  pub flap_threshold : ℕ
  pub flap_window : ℕ
  pub flap_dampening_duration : ℕ

-- Whether the stored declaration is missing, or the new one is fresher.
unfoldable pub is_update : {S : Type 0} → Option (ParentDeclaration S) → ParentDeclaration S → Bool
is_update none d = true
is_update (some old) d = is_fresher_than d old

module _ {S F : Type 0} where
  unfoldable pub new : F → ℕ → ℕ → TreeState S F
  new float_zero addr timestamp = record {
    my_node_addr = addr;
    my_declaration = self_root addr 1 timestamp;
    my_coords = root_with_meta addr 1 timestamp;
    root = addr;
    peer_declarations = [];
    peer_ancestry = [];
    parent_hysteresis = float_zero;
    hold_down = 0;
    last_parent_switch = none;
    flap_count = 0;
    flap_window_start = none;
    flap_dampening_until = none;
    flap_threshold = 4;
    flap_window = from_secs 60;
    flap_dampening_duration = from_secs 120;
  }

  unfoldable pub is_root : TreeState S F → Bool
  is_root s = s.root == s.my_node_addr

  unfoldable pub update_peer :
      TreeState S F → ParentDeclaration S → TreeCoordinate → Bool × TreeState S F
  unfolding is_update
  update_peer s d c =
      if is_update (get s.peer_declarations d.node_addr) d
      then (
        true,
        record s {
          peer_declarations = insert s.peer_declarations d.node_addr d;
          peer_ancestry = insert s.peer_ancestry d.node_addr c;
        },
      )
      else (false, s)

  unfoldable pub remove_peer : TreeState S F → ℕ → TreeState S F
  remove_peer s p = record s {
    peer_declarations = remove s.peer_declarations p;
    peer_ancestry = remove s.peer_ancestry p;
  }

  -- The window: counts this switch, or starts anew with it.
  unfoldable pub count_switch : TreeState S F → ℕ → TreeState S F
  count_switch s now =
      let fresh = record s { flap_window_start = some now; flap_count = 1 } in
      elim s.flap_window_start [
        | none ↦ fresh
        | some start ↦
            if ltb (now - start) s.flap_window
            then record s { flap_count = (s.flap_count + 1) % 2 ^ 32 }
            else fresh
      ]

  unfoldable pub engage : TreeState S F → ℕ → Bool × TreeState S F
  engage s now =
      if leb s.flap_threshold s.flap_count && not (is_some s.flap_dampening_until)
      then (true, record s { flap_dampening_until = some (now + s.flap_dampening_duration) })
      else (false, s)

  unfoldable pub record_parent_switch : TreeState S F → ℕ → Bool × TreeState S F
  unfolding count_switch engage
  record_parent_switch s now = engage (count_switch s now) now

  unfoldable pub is_flap_dampened : TreeState S F → ℕ → Bool
  is_flap_dampened s now = elim s.flap_dampening_until [ none ↦ false | some u ↦ ltb now u ]

  -- The declaration and the time of a switch.
  unfoldable pub with_parent : TreeState S F → ℕ → ℕ → ℕ → ℕ → TreeState S F
  with_parent s parent sequence timestamp now = record s {
    my_declaration = Declaration.new s.my_node_addr parent sequence timestamp;
    last_parent_switch = some now;
  }

  -- `now` is the time of the switch and `later` the time that `record_parent_switch` reads.
  unfoldable pub set_parent : TreeState S F → ℕ → ℕ → ℕ → ℕ → ℕ → Bool × TreeState S F
  unfolding is_root record_parent_switch with_parent
  set_parent s parent sequence timestamp now later =
      let parent_changed = is_root s || not (s.my_declaration.parent_id == parent) in
      let s' = with_parent s parent sequence timestamp now in
      if parent_changed then record_parent_switch s' later else (false, s')

  -- This node's entry in front of the parent's path.
  unfoldable pub coords_below : TreeState S F → TreeCoordinate → TreeCoordinate
  coords_below s c = record {
    first = record {
      node_addr = s.my_node_addr;
      sequence = s.my_declaration.sequence;
      timestamp = s.my_declaration.timestamp;
    };
    rest = entries c;
  }

  unfoldable pub recompute_coords : TreeState S F → TreeState S F
  unfolding coords_below
  recompute_coords s =
      if Declaration.is_root s.my_declaration
      then record s {
        my_coords =
            root_with_meta s.my_node_addr s.my_declaration.sequence s.my_declaration.timestamp;
        root = s.my_node_addr;
      }
      else elim (get s.peer_ancestry s.my_declaration.parent_id) [
        | none ↦ s
        | some c ↦ record s { my_coords = coords_below s c; root = root_id (coords_below s c) }
      ]

  unfoldable pub sign_declaration :
      TreeState S F → Identity S → TreeResult (Unit {0}) × TreeState S F
  sign_declaration s i = elim (Declaration.sign s.my_declaration i) [
    | ok d ↦ (ok tt, record s { my_declaration = d })
    | err e ↦ (err e, s)
  ]

  unfoldable distance_to_peer : TreeState S F → ℕ → Option ℕ
  distance_to_peer s p = elim (get s.peer_ancestry p) [
    | none ↦ none
    | some c ↦ some (distance_to s.my_coords c)
  ]

  abbrev pub set_hold_down : TreeState S F → ℕ → TreeState S F
  set_hold_down s secs = record s { hold_down = from_secs secs }

  abbrev pub set_flap_dampening : TreeState S F → ℕ → ℕ → ℕ → TreeState S F
  set_flap_dampening s threshold window_secs dampening_secs = record s {
    flap_threshold = threshold;
    flap_window = from_secs window_secs;
    flap_dampening_duration = from_secs dampening_secs;
  }
