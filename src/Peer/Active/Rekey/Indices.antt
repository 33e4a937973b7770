-- ===== src/Peer/Active/Rekey/Indices.antt =====
-- fips/src/peer/active.rs: the session indices that a peer holds, through the rotation of its keys.
use fips_native.Base.{
  ℕ, ◌+◌, ◌≡◌, refl, ap, inl, inr, Option-cases, arith, List, Option, none, some, ◌==◌,
  if◌then◌else◌,
}
use fips_native.Peer.Active.{ActivePeer}
use fips_native.Peer.Active.Rekey.{
  set_pending_session, promote, cutover_to_new_session, handle_peer_kbit_flip, complete_drain,
  abandon_rekey, set_rekey_state,
}

-- How often an optional index is `j`.
abbrev pub times : Option ℕ → ℕ → ℕ
times none j = 0
times (some i) j = if i == j then 1 else 0

module _ {S H : Type 0} where
  -- How often the peer holds the index `j`: for its session, the one it drains, the one it has
  -- pending, and the handshake it has sent.
  abbrev pub holds : ActivePeer S H → ℕ → ℕ
  holds p j =
      times p.our_index j
      + times p.previous_our_index j
      + times p.pending_our_index j
      + times p.rekey_our_index j

  -- The operations of a rotation, with the index that each acquires and the one it hands back to
  -- be freed, each with what it assumes of the peer. The index that a cutover gives as its result is
  -- not freed yet: it stays with the peer until its drain is over.
  pub data Rotation (p : ActivePeer S H) : Option ℕ → Option ℕ → ActivePeer S H → Type 0 where
    handshake_sent :
        (handshake : H) (index : ℕ) (msg1 : List ℕ) (resend : ℕ)
        → p.rekey_our_index ≡ none
        → Rotation p (some index) none (set_rekey_state p handshake index msg1 resend)
    handshake_completed :
        (session : S) (index theirs : ℕ)
        → p.rekey_our_index ≡ some index
        → p.pending_our_index ≡ none
        → Rotation p none none (set_pending_session p session index theirs)
    handshake_answered :
        (session : S) (index theirs : ℕ)
        → p.rekey_our_index ≡ none
        → p.pending_our_index ≡ none
        → Rotation p (some index) none (set_pending_session p session index theirs)
    cut_over :
        (now : ℕ)
        → p.previous_our_index ≡ none
        → Rotation p none none ((cutover_to_new_session p now).1)
    flipped :
        (now : ℕ)
        → p.previous_our_index ≡ none
        → Rotation p none none ((handle_peer_kbit_flip p now).1)
    drained : Rotation p none ((complete_drain p).0) ((complete_drain p).1)
    abandoned : Rotation p none ((abandon_rekey p).0) ((abandon_rekey p).1)

  -- A promotion loses the index that was still drained.
  holds-promote :
      (p : ActivePeer S H) (session : S) (now j : ℕ)
      → holds (promote p session now).1 j + times p.previous_our_index j ≡ holds p j
  unfolding promote
  holds-promote p session now j = omega arith

  pub promoted :
      (p : ActivePeer S H) (session : S) (now : ℕ)
      → p.pending_new_session ≡ some session
      → (cutover_to_new_session p now ≡ promote p session now)
        × (handle_peer_kbit_flip p now ≡ promote p session now)
  unfolding cutover_to_new_session handle_peer_kbit_flip
  promoted p session now h = (
    ap (λ o. elim o [ none ↦ (none, p) | some s ↦ promote p s now ]) h,
    ap (λ o. elim o [ none ↦ (none, p) | some s ↦ promote p s now ]) h,
  )

  -- The operation hands back the index of the session that it begins to drain, which the peer
  -- still holds, and the peer holds `j` less often by the times that it was drained before.
  abbrev pub Loses : ActivePeer S H → Option ℕ × ActivePeer S H → ℕ → Type 0
  Loses p (handed_back, q) j =
      (holds q j + times p.previous_our_index j ≡ holds p j)
      × (handed_back ≡ p.our_index)
      × (q.previous_our_index ≡ p.our_index)

  -- A cutover to a pending session, on our side or after a flip of the K-bit, loses the index
  -- that was still being drained: the peer holds it once less, while what is handed back is the
  -- index of the session that ends, which the peer still holds as the one to drain.
  pub cutover-lost :
      (p : ActivePeer S H) (session : S) (now j : ℕ)
      → p.pending_new_session ≡ some session
      → Loses p (cutover_to_new_session p now) j × Loses p (handle_peer_kbit_flip p now) j
  unfolding promote
  cutover-lost p session now j h =
      let (e, f) = promoted p session now h in
      let lost : Loses p (promote p session now) j = (holds-promote p session now j, refl, refl) in
      (rw e lost, rw f lost)

  pub unpromoted :
      (p : ActivePeer S H) (now : ℕ)
      → p.pending_new_session ≡ none
      → (cutover_to_new_session p now ≡ (none, p)) × (handle_peer_kbit_flip p now ≡ (none, p))
  unfolding cutover_to_new_session handle_peer_kbit_flip
  unpromoted p now h = (
    ap (λ o. elim o [ none ↦ (none, p) | some s ↦ promote p s now ]) h,
    ap (λ o. elim o [ none ↦ (none, p) | some s ↦ promote p s now ]) h,
  )

  cutover_holds :
      (p : ActivePeer S H) (now j : ℕ)
      → p.previous_our_index ≡ none
      → (holds ((cutover_to_new_session p now).1) j ≡ holds p j)
        × (holds ((handle_peer_kbit_flip p now).1) j ≡ holds p j)
  cutover_holds p now j h = elim (Option-cases p.pending_new_session) [
    | inl e ↦ let (f, g) = unpromoted p now e in (ap (λ r. holds r.1 j) f, ap (λ r. holds r.1 j) g)
    | inr (session, e) ↦
        let lost = cutover-lost p session now j e in
        let none_lost : times p.previous_our_index j ≡ 0 = ap (λ o. times o j) h in
        (omega (arith, lost.0.0), omega (arith, lost.1.0))
  ]

  -- Through the rotation of a peer's keys no index is lost or doubled: an operation changes the
  -- indices that the peer holds by the one it acquires and the one it hands back to be freed (a
  -- cutover does neither), provided that a handshake is sent or answered only while the peer
  -- holds no index of one that was sent, a handshake completes with the index it was sent under,
  -- a completed or answered handshake finds no pending index, and a cutover finds no index being
  -- drained.
  pub Rotation-holds :
      (p q : ActivePeer S H) (acquired released : Option ℕ)
      → Rotation p acquired released q
      → (j : ℕ) → holds q j + times released j ≡ holds p j + times acquired j
  unfolding set_pending_session set_rekey_state complete_drain abandon_rekey
  Rotation-holds p _ _ _ (handshake_sent handshake index msg1 resend e) j = rw e (omega arith)
  Rotation-holds p _ _ _ (handshake_completed session index theirs e f) j = rw (e, f) (omega arith)
  Rotation-holds p _ _ _ (handshake_answered session index theirs e f) j = rw (e, f) (omega arith)
  Rotation-holds p _ _ _ (cut_over now e) j = omega (arith, (cutover_holds p now j e).0)
  Rotation-holds p _ _ _ (flipped now e) j = omega (arith, (cutover_holds p now j e).1)
  Rotation-holds p _ _ _ drained j = omega arith
  Rotation-holds p _ _ _ abandoned j = elim (Option-cases p.rekey_our_index) [
    | inl e ↦ rw e (omega arith)
    | inr (index, e) ↦ rw e (omega arith)
  ]
