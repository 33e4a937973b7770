-- ===== src/Node/EncryptedFrame/Assertion.antt =====
-- fips/src/node/handlers/encrypted.rs: the assertion behind a change of keys.
use fips_native.Base.{ℕ, ◌≡◌, refl, Bool, true, false, some, Bool-cases, Option-cases, inl, inr}
use fips_native.Base.Map.{get}
use fips_native.Noise.Session.{NoiseSession}
use fips_native.Peer.Active.Rekey.{handle_peer_kbit_flip, promote}
use fips_native.Peer.Active.Rekey.Indices.{promoted, unpromoted}
use fips_native.Node.EncryptedFrame.{
  index_key, Peer, Node, k_bit_flipped, is_registered, registered_after, assertion_passes,
}

promote_passes :
    {P H : Type 0} (n : Node P H) (q : Peer P H) (session : NoiseSession P)
    (now transport_id index a : ℕ)
    → get n.peers_by_index (index_key transport_id index) ≡ some a
    → q.transport_id ≡ some transport_id
    → q.pending_our_index ≡ some index
    → registered_after n (promote q session now) ≡ true
unfolding promote is_registered registered_after
promote_passes n q session now transport_id index a g t p = elim (Option-cases q.our_index) [
  | inl i ↦ rw i refl
  | inr (old, i) ↦ rw (i, t, p, g) refl
]

-- The assertion holds where the index of a session that takes over is in the index map, under the
-- transport of its peer.
pub assertion_passes_lem :
    {P H : Type 0} (debug_assertions : Bool) (n : Node P H) (q : Peer P H) (k : Bool)
    (now transport_id index a : ℕ)
    → get n.peers_by_index (index_key transport_id index) ≡ some a
    → (k_bit_flipped q k ≡ true
        → (q.transport_id ≡ some transport_id) × (q.pending_our_index ≡ some index))
    → assertion_passes debug_assertions n q k now ≡ true
unfolding assertion_passes registered_after
assertion_passes_lem false n q k now transport_id index a g h = refl
assertion_passes_lem true n q k now transport_id index a g h =
    elim (Bool-cases (k_bit_flipped q k)) [
      | inr same ↦ rw same refl
      | inl flipped ↦ elim (Option-cases q.pending_new_session) [
        | inl e ↦ rw (flipped, (unpromoted q now e).1) refl
        | inr (session, e) ↦
            let (t, p) = h flipped in
            let f : handle_peer_kbit_flip q now ≡ promote q session now =
              (promoted q session now e).1 in
            rw (flipped, f) (promote_passes n q session now transport_id index a g t p)
      ]
    ]
