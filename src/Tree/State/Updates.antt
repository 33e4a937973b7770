-- ===== src/Tree/State/Updates.antt =====
-- What peers' announcements and this node's own switch leave behind.
use fips_native.Base.{
  ℕ, suc, ◌≤◌, ◌≡◌, ◌≢◌, ◌⊎◌, refl, inl, inr, arith, true, false, none, some, ◌==◌, if◌then◌else◌,
}
use fips_native.Base.Map.{get, get-insert}
use fips_native.Tree.Coordinate.{TreeCoordinate, root_id, entries}
use fips_native.Tree.Declaration.{ParentDeclaration, is_fresher_than}
use fips_native.Tree.Declaration
use fips_native.Tree.State.{
  TreeState, is_update, update_peer, set_parent, with_parent, record_parent_switch, count_switch,
  engage, coords_below, recompute_coords,
}

module _ {S F : Type 0} where
  stale :
      (s : TreeState S F) (d old : ParentDeclaration S) (c : TreeCoordinate)
      → get s.peer_declarations d.node_addr ≡ some old
      → d.sequence ≤ old.sequence
      → update_peer s d c ≡ (false, s)
  unfolding update_peer is_fresher_than
  stale s d old c e l = rw (e, is_update) (ground arith)

  -- A declaration is refused and changes nothing when the stored one of its peer has a sequence
  -- at least as high; else it and its path become what is known of that peer and no other peer
  -- changes.
  pub update_peer_correct :
      (s : TreeState S F) (d : ParentDeclaration S) (c : TreeCoordinate)
      → ((old : ParentDeclaration S)
          → get s.peer_declarations d.node_addr ≡ some old
          → d.sequence ≤ old.sequence
          → update_peer s d c ≡ (false, s))
        × ((get s.peer_declarations d.node_addr ≡ none)
              ⊎ ((old : ParentDeclaration S) × (get s.peer_declarations d.node_addr ≡ some old)
                  × (suc old.sequence ≤ d.sequence))
            → ((update_peer s d c).0 ≡ true)
              × ((q : ℕ)
                  → get (update_peer s d c).1.peer_declarations q
                    ≡ (if d.node_addr == q then some d else get s.peer_declarations q))
              × ((q : ℕ)
                  → get (update_peer s d c).1.peer_ancestry q
                    ≡ (if d.node_addr == q then some c else get s.peer_ancestry q)))
  unfolding update_peer is_fresher_than
  update_peer_correct s d c = (λ old. stale s d old c, λ h. fresh (taken h))
    where
      taken :
          (get s.peer_declarations d.node_addr ≡ none)
            ⊎ ((old : ParentDeclaration S) × (get s.peer_declarations d.node_addr ≡ some old)
                × (suc old.sequence ≤ d.sequence))
          → is_update (get s.peer_declarations d.node_addr) d ≡ true
      taken (inl e) = rw (e, is_update) refl
      taken (inr (old, e, l)) = rw (e, is_update) (ground arith)

      fresh :
          is_update (get s.peer_declarations d.node_addr) d ≡ true
          → ((update_peer s d c).0 ≡ true)
            × ((q : ℕ)
                → get (update_peer s d c).1.peer_declarations q
                  ≡ (if d.node_addr == q then some d else get s.peer_declarations q))
            × ((q : ℕ)
                → get (update_peer s d c).1.peer_ancestry q
                  ≡ (if d.node_addr == q then some c else get s.peer_ancestry q))
      fresh h = (
        rw h refl,
        λ q. rw h (get-insert s.peer_declarations d.node_addr q d),
        λ q. rw h (get-insert s.peer_ancestry d.node_addr q c),
      )

  -- What a parent switch keeps of the state.
  record Switched (s t : TreeState S F) (p q u : ℕ) : Type 0 where
    declaration : t.my_declaration ≡ Declaration.new s.my_node_addr p q u
    ancestry : t.peer_ancestry ≡ s.peer_ancestry
    addr : t.my_node_addr ≡ s.my_node_addr

  set_parent-Switched :
      (s : TreeState S F) (p q u now later : ℕ)
      → Switched s ((set_parent s p q u now later).1) p q u
  unfolding set_parent with_parent record_parent_switch count_switch engage
  set_parent-Switched s p q u now later = record {
    declaration = ground arith;
    ancestry = ground arith;
    addr = ground arith;
  }

  below :
      (s t : TreeState S F) (p q u : ℕ) (c : TreeCoordinate)
      → Switched s t p q u
      → p ≢ s.my_node_addr
      → get s.peer_ancestry p ≡ some c
      → ((recompute_coords t).my_coords ≡ record {
        first = record { node_addr = s.my_node_addr; sequence = q; timestamp = u };
        rest = entries c;
      })
        × ((recompute_coords t).root ≡ root_id c)
  unfolding recompute_coords coords_below Declaration.is_root Declaration.new root_id
  below s t p q u c w ne e =
      let other : (s.my_node_addr == p) ≡ false = ground arith in
      rw (w.declaration, w.ancestry, w.addr, other, e) (path, refl)
    where
      path : coords_below t c ≡ record {
        first = record { node_addr = s.my_node_addr; sequence = q; timestamp = u };
        rest = entries c;
      }
      path = rw (w.declaration, w.addr) refl

  -- After a switch to a peer with a known path, other than this node, and a recomputation, this
  -- node's path is its own entry in front of the parent's path and its root is the parent's.
  pub set_parent-recompute_coords :
      (s : TreeState S F) (p q u now later : ℕ) (c : TreeCoordinate)
      → p ≢ s.my_node_addr
      → get s.peer_ancestry p ≡ some c
      → ((recompute_coords ((set_parent s p q u now later).1)).my_coords ≡ record {
        first = record { node_addr = s.my_node_addr; sequence = q; timestamp = u };
        rest = entries c;
      })
        × ((recompute_coords ((set_parent s p q u now later).1)).root ≡ root_id c)
  set_parent-recompute_coords s p q u now later c =
      below s ((set_parent s p q u now later).1) p q u c (set_parent-Switched s p q u now later)
