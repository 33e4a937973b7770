-- ===== src/Bloom/State.antt =====
-- fips/src/bloom/state.rs: `BloomState`, which filters a node owes its peers.
-- A `HashSet` is a map to the unit; `Option` is for the panic of a filter's operations.
pub mod Outgoing
use fips_native.Base.{
  ℕ, ◌+◌, ◌%◌, ◌^◌, List, [], ◌∷◌, Bool, true, false, not, Option, none, some, leb, ◌==◌,
  if◌then◌else◌, is_some,
}
use fips_native.Base.Map.{Map, get, insert, remove, contains_key}
use fips_native.Codec.Bytes.{as_bytes}
use fips_native.Bloom.Filter
use fips_native.Bloom.Filter.{BloomFilter, BloomResult, ok, err, insert_bytes, merge, same_filter}

abbrev pub AddrSet : Type 0
AddrSet = Map (Unit {0})

pub record BloomState : Type 0 where
  pub own_node_addr : ℕ
  pub leaf_dependents : AddrSet
  pub is_leaf_only : Bool
  pub update_debounce_ms : ℕ
  pub last_update_sent : Map ℕ
  pub pending_updates : AddrSet
  pub sequence : ℕ
  pub last_sent_filters : Map BloomFilter

unfoldable pub new : ℕ → BloomState
new addr = record {
  own_node_addr = addr;
  leaf_dependents = [];
  is_leaf_only = false;
  update_debounce_ms = 500;
  last_update_sent = [];
  pending_updates = [];
  sequence = 0;
  last_sent_filters = [];
}

abbrev leaf_only : ℕ → BloomState
leaf_only addr = record (new addr) { is_leaf_only = true }

abbrev next_sequence : BloomState → ℕ × BloomState
next_sequence s = let n = (s.sequence + 1) % 2 ^ 64 in (n, record s { sequence = n })

abbrev pub set_update_debounce_ms : BloomState → ℕ → BloomState
set_update_debounce_ms s ms = record s { update_debounce_ms = ms }

abbrev pub add_leaf_dependent : BloomState → ℕ → BloomState
add_leaf_dependent s a = record s { leaf_dependents = insert s.leaf_dependents a tt }

-- The result says whether the dependent was there.
abbrev pub remove_leaf_dependent : BloomState → ℕ → Bool × BloomState
remove_leaf_dependent s a =
    (contains_key s.leaf_dependents a, record s { leaf_dependents = remove s.leaf_dependents a })

abbrev pub mark_update_needed : BloomState → ℕ → BloomState
mark_update_needed s p = record s { pending_updates = insert s.pending_updates p tt }

unfoldable pub mark_all_updates_needed : BloomState → List ℕ → BloomState
mark_all_updates_needed s [] = s
mark_all_updates_needed s (p ∷ ps) = mark_all_updates_needed (mark_update_needed s p) ps

abbrev pub needs_update : BloomState → ℕ → Bool
needs_update s p = contains_key s.pending_updates p

unfoldable pub should_send_update : BloomState → ℕ → ℕ → Bool
should_send_update s p now =
    if needs_update s p
    then elim (get s.last_update_sent p) [
      | none ↦ true
      | some last ↦ leb ((last + s.update_debounce_ms) % 2 ^ 64) now
    ]
    else false

unfoldable pub record_update_sent : BloomState → ℕ → ℕ → BloomState
record_update_sent s p now = record s {
  last_update_sent = insert s.last_update_sent p now;
  pending_updates = remove s.pending_updates p;
}

abbrev pub clear_pending_updates : BloomState → BloomState
clear_pending_updates s = record s { pending_updates = [] }

abbrev pub record_sent_filter : BloomState → ℕ → BloomFilter → BloomState
record_sent_filter s p f = record s { last_sent_filters = insert s.last_sent_filters p f }

unfoldable pub remove_peer_state : BloomState → ℕ → BloomState
remove_peer_state s p = record s {
  last_sent_filters = remove s.last_sent_filters p;
  last_update_sent = remove s.last_update_sent p;
  pending_updates = remove s.pending_updates p;
}

-- One round of the loop over the peers' filters: one that does not fit is skipped.
unfoldable pub merge_one : ℕ → BloomFilter → ℕ → BloomFilter → BloomFilter
merge_one exclude f p g = if p == exclude then f else elim (merge f g) [ ok h ↦ h | err e ↦ f ]

unfoldable pub merge_peers : ℕ → BloomFilter → Map BloomFilter → BloomFilter
merge_peers exclude f [] = f
merge_peers exclude f ((p, g) ∷ m) = merge_peers exclude (merge_one exclude f p g) m

-- Whether the new filter of a peer differs from what it was last sent.
unfoldable pub has_changed : Option BloomFilter → BloomFilter → Bool
has_changed none f = true
has_changed (some last) f = not (same_filter last f)

module _ (digest : List ℕ → List ℕ) where
  unfoldable pub insert_all : BloomFilter → AddrSet → Option BloomFilter
  insert_all f [] = some f
  insert_all f ((d, u) ∷ m) = elim (insert_bytes digest f (as_bytes d)) [
    | none ↦ none
    | some g ↦ insert_all g m
  ]

  unfoldable pub base_filter : BloomState → Option BloomFilter
  unfolding insert_all
  base_filter s = elim (insert_bytes digest Filter.new (as_bytes s.own_node_addr)) [
    | none ↦ none
    | some f ↦ insert_all f s.leaf_dependents
  ]

  -- It begins as `base_filter` does.
  unfoldable pub compute_outgoing_filter : BloomState → ℕ → Map BloomFilter → Option BloomFilter
  unfolding base_filter merge_peers
  compute_outgoing_filter s exclude filters = elim (base_filter s) [
    | none ↦ none
    | some f ↦ some (merge_peers exclude f filters)
  ]

  unfoldable pub mark_changed_peers : BloomState → ℕ → List ℕ → Map BloomFilter → Option BloomState
  unfolding has_changed
  mark_changed_peers s exclude_from [] filters = some s
  mark_changed_peers s exclude_from (p ∷ ps) filters =
      if p == exclude_from
      then mark_changed_peers s exclude_from ps filters
      else elim (compute_outgoing_filter s p filters) [
        | none ↦ none
        | some f ↦
            mark_changed_peers
              (if has_changed (get s.last_sent_filters p) f then mark_update_needed s p else s)
              exclude_from ps filters
      ]
