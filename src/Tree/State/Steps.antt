-- ===== src/Tree/State/Steps.antt =====
-- The runs of a `TreeState`: every operation that changes it, as a step.
use fips_native.Base.{
  ℕ, ◌%◌, ◌^◌, ◌+◌, ◌∙◌, ◌||◌, not, ◌≤◌, ◌≡◌, arith, inl, inr, false, none, some, ◌==◌, Bool-cases,
}
use fips_native.Base.Map.{Map}
use fips_native.Tree.Coordinate.{TreeCoordinate}
use fips_native.Tree.Declaration.{ParentDeclaration, Identity}
use fips_native.Tree.State.{
  TreeState, is_root, with_parent, update_peer, remove_peer, set_parent, recompute_coords,
  record_parent_switch, count_switch, engage, sign_declaration, set_hold_down, set_flap_dampening,
  is_flap_dampened,
}
use fips_native.Tree.State.Parent.{
  FloatApi, set_parent_hysteresis, evaluate_parent, become_root, handle_parent_lost,
}

module _ (f : FloatApi) {S : Type 0} where
  open f use {F}

  pub data Step (s : TreeState S F) : TreeState S F → Type 0 where
    peer_updated : (d : ParentDeclaration S) (c : TreeCoordinate) → Step s ((update_peer s d c).1)
    peer_removed : (p : ℕ) → Step s (remove_peer s p)
    parent_set : (p q t now later : ℕ) → Step s ((set_parent s p q t now later).1)
    coords_recomputed : Step s (recompute_coords s)
    switch_recorded : (now : ℕ) → Step s ((record_parent_switch s now).1)
    declaration_signed : (i : Identity S) → Step s ((sign_declaration s i).1)
    hysteresis_set : (x : F) → Step s (set_parent_hysteresis f s x)
    hold_down_set : (secs : ℕ) → Step s (set_hold_down s secs)
    dampening_set : (n w d : ℕ) → Step s (set_flap_dampening s n w d)
    parent_lost :
        (costs : Map F) (start soon t now later : ℕ)
        → Step s (handle_parent_lost f s costs start soon t now later)

  pub data Run (s : TreeState S F) : TreeState S F → Type 0 where
    stay : Run s s
    step : {t u : TreeState S F} → Run s t → Step t u → Run s u

  until-count_switch :
      (s : TreeState S F) (now : ℕ)
      → (count_switch s now).flap_dampening_until ≡ s.flap_dampening_until
  unfolding count_switch
  until-count_switch s now = ground arith

  until-engage :
      (s : TreeState S F) (now u : ℕ)
      → s.flap_dampening_until ≡ some u
      → (engage s now).1.flap_dampening_until ≡ some u
  unfolding engage
  until-engage s now u h = ground arith

  until-record_parent_switch :
      (s : TreeState S F) (now u : ℕ)
      → s.flap_dampening_until ≡ some u
      → (record_parent_switch s now).1.flap_dampening_until ≡ some u
  unfolding record_parent_switch
  until-record_parent_switch s now u h =
      until-engage (count_switch s now) now u (until-count_switch s now ∙ h)

  until-recompute_coords :
      (s : TreeState S F) → (recompute_coords s).flap_dampening_until ≡ s.flap_dampening_until
  unfolding recompute_coords
  until-recompute_coords s = ground arith

  until-update_peer :
      (s : TreeState S F) (d : ParentDeclaration S) (c : TreeCoordinate)
      → (update_peer s d c).1.flap_dampening_until ≡ s.flap_dampening_until
  unfolding update_peer
  until-update_peer s d c = ground arith

  until-sign_declaration :
      (s : TreeState S F) (i : Identity S)
      → (sign_declaration s i).1.flap_dampening_until ≡ s.flap_dampening_until
  unfolding sign_declaration
  until-sign_declaration s i = ground arith

  until-set_parent :
      (s : TreeState S F) (p q t now later u : ℕ)
      → s.flap_dampening_until ≡ some u
      → (set_parent s p q t now later).1.flap_dampening_until ≡ some u
  unfolding set_parent with_parent
  until-set_parent s p q t now later u h =
      elim (Bool-cases (is_root s || not (s.my_declaration.parent_id == p))) [
        | inl changed ↦ rw changed (until-record_parent_switch (with_parent s p q t now) later u h)
        | inr same ↦ rw same h
      ]

  until-handle_parent_lost :
      (s : TreeState S F) (costs : Map F) (start soon t now later u : ℕ)
      → s.flap_dampening_until ≡ some u
      → (handle_parent_lost f s costs start soon t now later).flap_dampening_until ≡ some u
  unfolding handle_parent_lost become_root
  until-handle_parent_lost s costs start soon t now later u h =
      elim (evaluate_parent f s costs start soon)
        as (λ e.
          (elim e as (λ _. TreeState S F) [
            | some p ↦
                recompute_coords
                  ((set_parent s p ((s.my_declaration.sequence + 1) % 2 ^ 64) t now later).1)
            | none ↦ recompute_coords (become_root f s ((s.my_declaration.sequence + 1) % 2 ^ 64) t)
          ]).flap_dampening_until
          ≡ some u) [
            | none ↦
                until-recompute_coords
                  (become_root f s ((s.my_declaration.sequence + 1) % 2 ^ 64) t)
                ∙ h
            | some p ↦
                until-recompute_coords
                  ((set_parent s p ((s.my_declaration.sequence + 1) % 2 ^ 64) t now later).1)
                ∙ until-set_parent s p ((s.my_declaration.sequence + 1) % 2 ^ 64) t now later u h
          ]

  until-Step :
      (s t : TreeState S F) (u : ℕ)
      → Step s t
      → s.flap_dampening_until ≡ some u
      → t.flap_dampening_until ≡ some u
  unfolding remove_peer
  until-Step s _ u (peer_updated d c) h = until-update_peer s d c ∙ h
  until-Step s _ u (peer_removed p) h = h
  until-Step s _ u (parent_set p q t now later) h = until-set_parent s p q t now later u h
  until-Step s _ u coords_recomputed h = until-recompute_coords s ∙ h
  until-Step s _ u (switch_recorded now) h = until-record_parent_switch s now u h
  until-Step s _ u (declaration_signed i) h = until-sign_declaration s i ∙ h
  until-Step s _ u (hysteresis_set x) h = h
  until-Step s _ u (hold_down_set x) h = h
  until-Step s _ u (dampening_set n w d) h = h
  until-Step s _ u (parent_lost c x y t n l) h = until-handle_parent_lost s c x y t n l u h

  until-Run :
      (s t : TreeState S F) (u : ℕ)
      → Run s t
      → s.flap_dampening_until ≡ some u
      → t.flap_dampening_until ≡ some u
  until-Run s _ u stay h = h
  until-Run s t u (step {t = m} r k) h = until-Step m t u k (until-Run s m u r h)

  -- Once flap dampening has engaged until some instant, no run of the node engages it again:
  -- from that instant on the node is not dampened, however often it switches.
  pub is_flap_dampened-once :
      (s t : TreeState S F) (u now : ℕ)
      → s.flap_dampening_until ≡ some u
      → Run s t
      → u ≤ now
      → (is_flap_dampened t now ≡ false) × ((record_parent_switch t now).0 ≡ false)
  unfolding is_flap_dampened record_parent_switch engage
  is_flap_dampened-once s t u now h r k = (
    rw (until-Run s t u r h) (ground arith),
    rw (until-count_switch t now, until-Run s t u r h) (ground arith),
  )
