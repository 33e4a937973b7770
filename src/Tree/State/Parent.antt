-- ===== src/Tree/State/Parent.antt =====
-- `evaluate_parent` and `handle_parent_lost`: the choice of a parent.

use fips_native.Base.{
  ℕ, ◌+◌, ◌-◌, ◌%◌, ◌^◌, List, [], ◌∷◌, Bool, true, false, ◌||◌, ◌&&◌, not, Option, none, some, ltb,
  leb, ◌==◌, if◌then◌else◌,
}
use fips_native.Base.Map.{Map, get, contains_key}
use fips_native.Tree.Coordinate.{TreeCoordinate, root_id, depth, contains}
use fips_native.Tree.Declaration.{self_root}
use fips_native.Tree.State.{TreeState, is_root, is_flap_dampened, set_parent, recompute_coords}

-- Rust's `f64`, as far as the code uses it.
pub record FloatApi : Type 1 where
  pub F : Type 0
  pub of_nat : ℕ → F
  pub zero : F
  pub one : F
  pub infinity : F
  pub add : F → F → F
  pub sub : F → F → F
  pub mul : F → F → F
  pub lt : F → F → Bool
  pub eq : F → F → Bool

-- `hysteresis.clamp(0.0, 1.0)`.
abbrev clamp_unit : (f : FloatApi) → f.F → f.F
clamp_unit f x = if f.lt x f.zero then f.zero else (if f.lt f.one x then f.one else x)

-- The smallest root over the peers, from the smallest so far.
unfoldable pub smallest_root : Option ℕ → Map TreeCoordinate → Option ℕ
smallest_root best [] = best
smallest_root none ((p, c) ∷ m) = smallest_root (some (root_id c)) m
smallest_root (some r) ((p, c) ∷ m) =
    smallest_root (some (if ltb (root_id c) r then root_id c else r)) m

unfoldable pub is_empty : {A : Type 0} → List A → Bool
is_empty [] = true
is_empty (x ∷ xs) = false

module _ (f : FloatApi) where
  open f use {F, of_nat, one, infinity, add, sub, mul, lt, eq}

  abbrev pub set_parent_hysteresis : {S : Type 0} → TreeState S F → F → TreeState S F
  set_parent_hysteresis s hysteresis = record s { parent_hysteresis = clamp_unit f hysteresis }

  -- A peer without a measured cost is skipped, unless no cost is measured at all.
  unfoldable pub link_cost : Map F → ℕ → Option F
  link_cost costs p = elim (get costs p) [
    | some c ↦ some c
    | none ↦ if is_empty costs then some one else none
  ]

  unfoldable pub takes_over : Option (ℕ × F) → ℕ → F → Bool
  takes_over none p e = true
  takes_over (some (b, d)) p e = lt e d || (eq e d && ltb p b)

  -- One round of the loop over the peers.
  unfoldable pub consider : ℕ → ℕ → Map F → Option (ℕ × F) → ℕ → TreeCoordinate → Option (ℕ × F)
  consider me root costs best p c =
      if not (root_id c == root)
      then best
      else (if contains c me then best else elim (link_cost costs p) [
        | none ↦ best
        | some cost ↦
            let eff = add (of_nat (depth c)) cost in
            if takes_over best p eff then some (p, eff) else best
      ])

  unfoldable pub best_peer : ℕ → ℕ → Map F → Option (ℕ × F) → Map TreeCoordinate → Option (ℕ × F)
  unfolding consider
  best_peer me root costs best [] = best
  best_peer me root costs best ((p, c) ∷ m) =
      best_peer me root costs (consider me root costs best p c) m

  -- `last.elapsed() < self.hold_down`.
  unfoldable is_held_down : {S : Type 0} → TreeState S F → ℕ → Bool
  is_held_down s now =
      not (s.hold_down == 0)
      && elim s.last_parent_switch [ none ↦ false | some t ↦ ltb (now - t) s.hold_down ]

  -- The comparison with the current parent, with hysteresis.
  unfoldable is_better : {S : Type 0} → TreeState S F → Map F → F → TreeCoordinate → Bool
  is_better s costs eff c =
      let cost : F = elim (get costs s.my_declaration.parent_id) [
        | some x ↦ x
        | none ↦ if is_empty costs then one else infinity
      ] in
      lt eff (mul (add (of_nat (depth c)) cost) (sub one s.parent_hysteresis))

  -- From the best candidate on; the clock is read for the hold-down and, `later`, for the dampening.
  unfoldable pub accept_candidate :
      {S : Type 0} → TreeState S F → Map F → ℕ → ℕ → ℕ → ℕ → F → Option ℕ
  unfolding is_root is_held_down is_flap_dampened is_better
  accept_candidate s costs now later smallest p eff =
      if (s.my_declaration.parent_id == p) && not (is_root s)
      then none
      else (if not (is_root s) && not (contains_key s.peer_ancestry s.my_declaration.parent_id)
          then some p
          else (if ltb smallest s.root || (is_root s && ltb smallest s.my_node_addr)
              then some p
              else (if is_root s
                  then some p
                  else (if is_held_down s now
                      then none
                      else (if is_flap_dampened s later
                          then none
                          else elim (get s.peer_ancestry s.my_declaration.parent_id) [
                            | none ↦ some p
                            | some c ↦ if is_better s costs eff c then some p else none
                          ])))))

  unfoldable pub choose :
      {S : Type 0} → TreeState S F → Map F → ℕ → ℕ → ℕ → Option (ℕ × F) → Option ℕ
  unfolding accept_candidate
  choose s costs now later smallest none = none
  choose s costs now later smallest (some (p, eff)) =
      accept_candidate s costs now later smallest p eff

  unfoldable pub evaluate_parent : {S : Type 0} → TreeState S F → Map F → ℕ → ℕ → Option ℕ
  unfolding smallest_root best_peer choose
  evaluate_parent s costs now later = elim (smallest_root none s.peer_ancestry) [
    | none ↦ none
    | some smallest ↦
        if leb s.my_node_addr smallest && is_root s
        then none
        else choose s costs now later smallest
            (best_peer s.my_node_addr smallest costs none s.peer_ancestry)
  ]

  unfoldable pub become_root : {S : Type 0} → TreeState S F → ℕ → ℕ → TreeState S F
  become_root s seq timestamp = record s { my_declaration = self_root s.my_node_addr seq timestamp }

  -- `start` and `soon` are the readings of `evaluate_parent`, `now` and `later` those of
  -- `set_parent`. The result, `true` in both cases, is left out.
  unfoldable pub handle_parent_lost :
      {S : Type 0} → TreeState S F → Map F → (start soon timestamp now later : ℕ) → TreeState S F
  unfolding evaluate_parent become_root set_parent recompute_coords
  handle_parent_lost s costs start soon timestamp now later =
      let seq = (s.my_declaration.sequence + 1) % 2 ^ 64 in
      elim (evaluate_parent s costs start soon) [
        | some p ↦ recompute_coords (set_parent s p seq timestamp now later).1
        | none ↦ recompute_coords (become_root s seq timestamp)
      ]
