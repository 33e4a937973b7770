-- ===== src/Peer/Active.antt =====
-- fips/src/peer/active.rs: `ActivePeer`, its sessions and their rotation, and what it keeps of the
-- peer's filter. The clock is an argument, in milliseconds. `S` is the type of sessions and `H` of
-- handshakes. Identity, link, tree position, statistics, metrics and heartbeats are fields
-- that the operations here neither read nor write, but for the metrics, which a cutover resets;
-- they are left out.
pub mod Rekey
use fips_native.Base.{
  ℕ, ◌+◌, ◌-◌, ◌/◌, ◌%◌, ◌^◌, List, [], ◌∷◌, Bool, true, false, not, ◌&&◌, Option, none, some, ltb,
  leb, ◌==◌, if◌then◌else◌, is_some,
}
use fips_native.Bloom.Filter.{BloomFilter}

pub data ConnectivityState : Type 0 where
  connected : ConnectivityState
  stale : ConnectivityState
  reconnecting : ConnectivityState
  disconnected : ConnectivityState

abbrev can_send : ConnectivityState → Bool
can_send connected = true
can_send stale = true
can_send reconnecting = false
can_send disconnected = false

abbrev is_healthy : ConnectivityState → Bool
is_healthy connected = true
is_healthy stale = false
is_healthy reconnecting = false
is_healthy disconnected = false

pub record ActivePeer (S H : Type 0) : Type 0 where
  pub connectivity : ConnectivityState
  pub noise_session : Option S
  pub our_index : Option ℕ
  pub their_index : Option ℕ
  pub transport_id : Option ℕ
  pub current_addr : Option (List ℕ)
  pub tree_announce_min_interval_ms : ℕ
  pub last_tree_announce_sent_ms : ℕ
  pub pending_tree_announce : Bool
  pub inbound_filter : Option BloomFilter
  pub filter_sequence : ℕ
  pub filter_received_at : ℕ
  pub pending_filter_update : Bool
  pub session_start : ℕ
  pub last_seen : ℕ
  pub replay_suppressed_count : ℕ
  pub consecutive_decrypt_failures : ℕ
  pub session_established_at : ℕ
  pub current_k_bit : Bool
  pub previous_session : Option S
  pub previous_our_index : Option ℕ
  pub drain_started : Option ℕ
  pub pending_new_session : Option S
  pub pending_our_index : Option ℕ
  pub pending_their_index : Option ℕ
  pub rekey_in_progress : Bool
  pub last_peer_rekey : Option ℕ
  pub rekey_handshake : Option H
  pub rekey_our_index : Option ℕ
  pub rekey_msg1 : Option (List ℕ)
  pub rekey_msg1_next_resend : ℕ

module _ {S H : Type 0} where
  -- `authenticated_at` is in milliseconds since 1970, `now` on the clock of `Instant`.
  unfoldable pub with_session : S → ℕ → ℕ → ℕ → List ℕ → ℕ → ℕ → ActivePeer S H
  with_session noise_session our_index their_index transport_id addr authenticated_at now = record {
    connectivity = connected;
    noise_session = some noise_session;
    our_index = some our_index;
    their_index = some their_index;
    transport_id = some transport_id;
    current_addr = some addr;
    tree_announce_min_interval_ms = 500;
    last_tree_announce_sent_ms = 0;
    pending_tree_announce = false;
    inbound_filter = none;
    filter_sequence = 0;
    filter_received_at = 0;
    pending_filter_update = true;
    session_start = now;
    last_seen = authenticated_at;
    replay_suppressed_count = 0;
    consecutive_decrypt_failures = 0;
    session_established_at = now;
    current_k_bit = false;
    previous_session = none;
    previous_our_index = none;
    drain_started = none;
    pending_new_session = none;
    pending_our_index = none;
    pending_their_index = none;
    rekey_in_progress = false;
    last_peer_rekey = none;
    rekey_handshake = none;
    rekey_our_index = none;
    rekey_msg1 = none;
    rekey_msg1_next_resend = 0;
  }

  abbrev pub set_current_addr : ActivePeer S H → ℕ → List ℕ → ActivePeer S H
  set_current_addr p transport_id addr = record p {
    transport_id = some transport_id;
    current_addr = some addr;
  }

  abbrev set_their_index : ActivePeer S H → ℕ → ActivePeer S H
  set_their_index p index = record p { their_index = some index }

  -- The result is the index that was ours.
  unfoldable pub replace_session : ActivePeer S H → S → ℕ → ℕ → Option ℕ × ActivePeer S H
  replace_session p session our_index their_index = (
    p.our_index,
    record p {
      replay_suppressed_count = 0;
      noise_session = some session;
      our_index = some our_index;
      their_index = some their_index;
    },
  )

  abbrev pub increment_replay_suppressed : ActivePeer S H → ℕ × ActivePeer S H
  increment_replay_suppressed p =
      let n = (p.replay_suppressed_count + 1) % 2 ^ 32 in
      (n, record p { replay_suppressed_count = n })

  abbrev pub increment_decrypt_failures : ActivePeer S H → ℕ × ActivePeer S H
  increment_decrypt_failures p =
      let n = (p.consecutive_decrypt_failures + 1) % 2 ^ 32 in
      (n, record p { consecutive_decrypt_failures = n })

  abbrev pub reset_decrypt_failures : ActivePeer S H → ActivePeer S H
  reset_decrypt_failures p = record p { consecutive_decrypt_failures = 0 }

  abbrev pub touch : ActivePeer S H → ℕ → ActivePeer S H
  touch p current_time_ms = record p {
    last_seen = current_time_ms;
    connectivity = elim p.connectivity [
      | connected ↦ connected
      | stale ↦ connected
      | reconnecting ↦ reconnecting
      | disconnected ↦ disconnected
    ];
  }

  abbrev mark_stale : ActivePeer S H → ActivePeer S H
  mark_stale p = record p {
    connectivity = elim p.connectivity [
      | connected ↦ stale
      | stale ↦ stale
      | reconnecting ↦ reconnecting
      | disconnected ↦ disconnected
    ];
  }

  abbrev mark_connected : ActivePeer S H → ℕ → ActivePeer S H
  mark_connected p current_time_ms = record p {
    connectivity = connected;
    last_seen = current_time_ms;
  }

  unfoldable can_send_tree_announce : ActivePeer S H → ℕ → Bool
  can_send_tree_announce p now_ms =
      leb p.tree_announce_min_interval_ms (now_ms - p.last_tree_announce_sent_ms)

  abbrev record_tree_announce_sent : ActivePeer S H → ℕ → ActivePeer S H
  record_tree_announce_sent p now_ms = record p {
    last_tree_announce_sent_ms = now_ms;
    pending_tree_announce = false;
  }

  unfoldable filter_is_stale : ActivePeer S H → ℕ → ℕ → Bool
  filter_is_stale p current_time_ms stale_threshold_ms =
      if p.filter_received_at == 0
      then true
      else ltb stale_threshold_ms (current_time_ms - p.filter_received_at)

  abbrev update_filter : ActivePeer S H → BloomFilter → ℕ → ℕ → ActivePeer S H
  update_filter p filter sequence current_time_ms = record p {
    inbound_filter = some filter;
    filter_sequence = sequence;
    filter_received_at = current_time_ms;
    last_seen = current_time_ms;
  }

  abbrev clear_filter : ActivePeer S H → ActivePeer S H
  clear_filter p = record p { inbound_filter = none; filter_sequence = 0; filter_received_at = 0 }
