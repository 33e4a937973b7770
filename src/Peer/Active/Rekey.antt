-- ===== src/Peer/Active/Rekey.antt =====
-- fips/src/peer/active.rs: the rotation of a peer's keys.
pub mod Indices
use fips_native.Base.{
  ℕ, ◌-◌, ◌/◌, List, Bool, true, false, not, ◌&&◌, Option, none, some, ltb, leb, is_some,
}
use fips_native.Peer.Active.{ActivePeer}

module _ {S H : Type 0} where
  abbrev pub set_rekey_in_progress : ActivePeer S H → ActivePeer S H
  set_rekey_in_progress p = record p { rekey_in_progress = true }

  unfoldable pub is_rekey_dampened : ActivePeer S H → ℕ → ℕ → Bool
  is_rekey_dampened p dampening_secs now = elim p.last_peer_rekey [
    | none ↦ false
    | some t ↦ ltb ((now - t) / 1000) dampening_secs
  ]

  abbrev pub record_peer_rekey : ActivePeer S H → ℕ → ActivePeer S H
  record_peer_rekey p now = record p { last_peer_rekey = some now }

  unfoldable pub set_pending_session : ActivePeer S H → S → ℕ → ℕ → ActivePeer S H
  set_pending_session p session our_index their_index = record p {
    pending_new_session = some session;
    pending_our_index = some our_index;
    pending_their_index = some their_index;
    rekey_in_progress = false;
    rekey_our_index = none;
    rekey_handshake = none;
    rekey_msg1 = none;
    rekey_msg1_next_resend = 0;
  }

  -- The body that both cutovers share, with the pending session.
  unfoldable pub promote : ActivePeer S H → S → ℕ → Option ℕ × ActivePeer S H
  promote p session now = (
    p.our_index,
    record p {
      pending_new_session = none;
      pending_our_index = none;
      pending_their_index = none;
      previous_session = p.noise_session;
      previous_our_index = p.our_index;
      drain_started = some now;
      noise_session = some session;
      our_index = p.pending_our_index;
      their_index = p.pending_their_index;
      current_k_bit = not p.current_k_bit;
      session_established_at = now;
      session_start = now;
      rekey_in_progress = false;
      replay_suppressed_count = 0;
    },
  )

  unfoldable pub cutover_to_new_session : ActivePeer S H → ℕ → Option ℕ × ActivePeer S H
  cutover_to_new_session p now = elim p.pending_new_session [
    | none ↦ (none, p)
    | some session ↦ promote p session now
  ]

  unfoldable pub handle_peer_kbit_flip : ActivePeer S H → ℕ → Option ℕ × ActivePeer S H
  handle_peer_kbit_flip p now = elim p.pending_new_session [
    | none ↦ (none, p)
    | some session ↦ promote p session now
  ]

  unfoldable pub drain_expired : ActivePeer S H → ℕ → ℕ → Bool
  drain_expired p drain_secs now = elim p.drain_started [
    | none ↦ false
    | some t ↦ leb drain_secs ((now - t) / 1000)
  ]

  abbrev pub is_draining : ActivePeer S H → Bool
  is_draining p = is_some p.drain_started

  unfoldable pub complete_drain : ActivePeer S H → Option ℕ × ActivePeer S H
  complete_drain p = (
    p.previous_our_index,
    record p { previous_session = none; drain_started = none; previous_our_index = none },
  )

  -- It drops the pending session only where no handshake holds an index.
  unfoldable pub abandon_rekey : ActivePeer S H → Option ℕ × ActivePeer S H
  abandon_rekey p =
      let q : ActivePeer S H = record p {
        rekey_handshake = none;
        rekey_msg1 = none;
        rekey_msg1_next_resend = 0;
        rekey_in_progress = false;
        rekey_our_index = none;
      } in
      elim p.rekey_our_index [
        | some index ↦ (some index, q)
        | none ↦ (
          p.pending_our_index,
          record q {
            pending_new_session = none;
            pending_their_index = none;
            pending_our_index = none;
          },
        )
      ]

  unfoldable pub set_rekey_state : ActivePeer S H → H → ℕ → List ℕ → ℕ → ActivePeer S H
  set_rekey_state p handshake our_index wire_msg1 next_resend_ms = record p {
    rekey_handshake = some handshake;
    rekey_our_index = some our_index;
    rekey_msg1 = some wire_msg1;
    rekey_msg1_next_resend = next_resend_ms;
    rekey_in_progress = true;
  }

  unfoldable pub needs_msg1_resend : ActivePeer S H → ℕ → Bool
  needs_msg1_resend p now_ms =
      p.rekey_in_progress && (is_some p.rekey_msg1 && leb p.rekey_msg1_next_resend now_ms)

  abbrev pub set_msg1_next_resend : ActivePeer S H → ℕ → ActivePeer S H
  set_msg1_next_resend p next_ms = record p { rekey_msg1_next_resend = next_ms }
