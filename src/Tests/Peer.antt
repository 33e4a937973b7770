-- ===== src/Tests/Peer.antt =====
-- A peer whose sessions are numbers, with a session that is pending.
use fips_native.Base.{ℕ, ◌+◌, ◌≡◌, refl, [], some, none}
use fips_native.Peer.Active.{ActivePeer, with_session}
use fips_native.Peer.Active.Rekey.{
  cutover_to_new_session, handle_peer_kbit_flip, set_pending_session,
}
use fips_native.Peer.Active.Rekey.Indices.{
  times, holds, Loses, cut_over, Rotation-holds, cutover-lost,
}

abbrev toy_peer : ActivePeer ℕ ℕ
toy_peer = set_pending_session (with_session 1 10 20 3 [] 0 0) 2 11 21

abbrev draining_peer : ActivePeer ℕ ℕ
draining_peer = record toy_peer { previous_our_index = some 9 }

Rotation-holds_example :
    holds ((cutover_to_new_session toy_peer 5).1) 10 + times none 10
    ≡ holds toy_peer 10 + times none 10
unfolding set_pending_session with_session
Rotation-holds_example =
    Rotation-holds toy_peer ((cutover_to_new_session toy_peer 5).1) none none (cut_over 5 refl) 10

cutover-lost_example :
    Loses draining_peer (cutover_to_new_session draining_peer 5) 9
    × Loses draining_peer (handle_peer_kbit_flip draining_peer 5) 9
unfolding set_pending_session with_session
cutover-lost_example = cutover-lost draining_peer 2 5 9 refl
