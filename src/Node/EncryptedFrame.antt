-- ===== src/Node/EncryptedFrame.antt =====
-- fips/src/node/handlers/encrypted.rs: `handle_encrypted_frame`, and the sending side in
-- fips/src/node/mod.rs: `send_encrypted_link_message_with_ce`. Of the node they use the peers and
-- the map from a transport and one of our indices to a peer. What the handler calls behind the
-- decryption is a result of the model: the dispatch of the message, and the removal of a peer. Left
-- out are metrics, statistics and logging. A panic, of a replay window or of the `debug_assert!`
-- behind a change of keys, is `none`; `debug_assertions` says whether the build has such
-- assertions. The sockets are not modelled.
pub mod Assertion
pub mod Delivery
use Prim.Native.Nat.{bit_and, bit_or}
use fips_native.Base.{
  ℕ, ◌+◌, ◌-◌, ◌*◌, ◌%◌, ◌^◌, List, drop, length, Bool, true, false, not, ◌&&◌, Option, none, some,
  leb, ◌==◌, if◌then◌else◌, is_some,
}
use fips_native.Base.Map.{Map, get, insert, remove, contains_key}
use fips_native.Noise.Cipher.{NoiseError, NoiseResult, ok, err, replay_detected, AeadApi}
use fips_native.Noise.Session.{
  NoiseSession, encrypt_with_aad, decrypt_with_replay_check_and_aad, current_send_counter,
}
use fips_native.Peer.Active.{
  ActivePeer, increment_decrypt_failures, increment_replay_suppressed, reset_decrypt_failures,
  touch, set_current_addr,
}
use fips_native.Peer.Active.Rekey.{handle_peer_kbit_flip}
use fips_native.Node.Wire.{
  EncryptedHeader, parse_encrypted, build_established_header, build_encrypted, prepend_inner_header,
  strip_inner_header,
}

abbrev flag_key_epoch : ℕ
flag_key_epoch = 1

abbrev flag_ce : ℕ
flag_ce = 2

abbrev flag_sp : ℕ
flag_sp = 4

abbrev decrypt_failure_threshold : ℕ
decrypt_failure_threshold = 20

-- The key of `peers_by_index`: a transport and a u32.
abbrev pub index_key : ℕ → ℕ → ℕ
index_key transport_id index = transport_id * 2 ^ 32 + index

-- `P` is the type of public keys, `H` of handshakes.
abbrev pub Peer : Type 0 → Type 0 → Type 0
Peer P H = ActivePeer (NoiseSession P) H

pub record Node (P H : Type 0) : Type 0 where
  pub peers : Map (Peer P H)
  pub peers_by_index : Map ℕ

-- A frame as a transport hands it over.
pub record ReceivedPacket : Type 0 where
  pub transport_id : ℕ
  pub remote_addr : List ℕ
  pub bytes : List ℕ
  pub timestamp_ms : ℕ

-- What the node does with the frame: nothing, a dispatch of a message from a peer, or the count
-- of a failure, which may be the peer's last.
pub data Handled : Type 0 where
  dropped : Handled
  dispatched : (node_addr timestamp : ℕ) (link_message : List ℕ) (ce_flag : Bool) → Handled
  failed : (node_addr : ℕ) (removed : Bool) → Handled

pub data Decrypted (P H : Type 0) : Type 0 where
  no_session : Decrypted P H
  plaintext : List ℕ → Peer P H → Decrypted P H
  refused : NoiseError → Peer P H → Decrypted P H

pub data Sealed : Type 0 where
  no_their_index : Sealed
  no_noise_session : Sealed
  encryption_failed : NoiseError → Sealed
  wire_packet : List ℕ → Sealed

abbrev pub frame_flags : Bool → Bool → Bool → ℕ
frame_flags sp ce k =
    let spin = if sp then flag_sp else 0 in
    let congestion = if ce then bit_or spin flag_ce else spin in
    if k then bit_or congestion flag_key_epoch else congestion

module _ {P H : Type 0} where
  -- The frame's K-bit differs, and a session waits for it.
  abbrev pub k_bit_flipped : Peer P H → Bool → Bool
  k_bit_flipped p received_k_bit =
      (if received_k_bit then not p.current_k_bit else p.current_k_bit)
      && is_some p.pending_new_session

  unfoldable pub cut_over : Peer P H → Bool → ℕ → Peer P H
  cut_over p received_k_bit now =
      if k_bit_flipped p received_k_bit then (handle_peer_kbit_flip p now).1 else p

  -- The condition of the assertion: the peer's index is in the index map.
  unfoldable pub is_registered : Node P H → Peer P H → Bool
  is_registered n p = elim p.transport_id [
    | none ↦ false
    | some transport_id ↦ elim p.our_index [
      | none ↦ false
      | some index ↦ contains_key n.peers_by_index (index_key transport_id index)
    ]
  ]

  -- The assertion, which stands behind a cutover that had an index.
  unfoldable pub registered_after : Node P H → Option ℕ × Peer P H → Bool
  unfolding is_registered
  registered_after n (none, p) = true
  registered_after n (some old_our_index, p) = is_registered n p

  -- Whether the handler gets past the assertion.
  unfoldable pub assertion_passes : Bool → Node P H → Peer P H → Bool → ℕ → Bool
  unfolding registered_after
  assertion_passes debug_assertions n p received_k_bit now =
      if debug_assertions && k_bit_flipped p received_k_bit
      then registered_after n (handle_peer_kbit_flip p now)
      else true

  -- `log_decrypt_failure` counts the replays that it does not log.
  abbrev pub count_replay : Peer P H → NoiseError → Peer P H
  count_replay p (replay_detected c) = (increment_replay_suppressed p).1
  count_replay p e = p

  abbrev pub put_peer : Node P H → ℕ → Peer P H → Node P H
  put_peer n a p = record n { peers = insert n.peers a p }

  unfoldable pub finish_frame :
      Node P H → ℕ → EncryptedHeader → ReceivedPacket → Decrypted P H → Handled × Node P H
  finish_frame n a header packet no_session = (dropped, n)
  finish_frame n a header packet (refused e p) =
      let (count, q) = increment_decrypt_failures (count_replay p e) in
      (failed a (leb decrypt_failure_threshold count), put_peer n a q)
  finish_frame n a header packet (plaintext m p) = elim (strip_inner_header m) [
    | none ↦ (dropped, put_peer n a p)
    | some (timestamp, link_message) ↦ (
      dispatched a timestamp link_message (not (bit_and header.flags flag_ce == 0)),
      put_peer n a
          (touch (set_current_addr p packet.transport_id packet.remote_addr) packet.timestamp_ms),
    )
  ]

  module _ (api : AeadApi) where
    -- The session that is drained is tried where the current one refuses.
    unfoldable pub decrypt_previous :
        Peer P H → NoiseError → List ℕ → ℕ → List ℕ → Option (Decrypted P H)
    decrypt_previous p e ciphertext counter aad = elim p.previous_session [
      | none ↦ some (refused e p)
      | some previous ↦
          elim (decrypt_with_replay_check_and_aad api previous ciphertext counter aad) [
            | none ↦ none
            | some (ok m, s) ↦
                some (plaintext m (reset_decrypt_failures (record p { previous_session = some s })))
            | some (err f, s) ↦ some (refused e (record p { previous_session = some s }))
          ]
    ]

    unfoldable pub decrypt_frame : Peer P H → List ℕ → ℕ → List ℕ → Option (Decrypted P H)
    unfolding decrypt_previous
    decrypt_frame p ciphertext counter aad = elim p.noise_session [
      | none ↦ some no_session
      | some session ↦ elim (decrypt_with_replay_check_and_aad api session ciphertext counter aad) [
        | none ↦ none
        | some (ok m, s) ↦
            some (plaintext m (reset_decrypt_failures (record p { noise_session = some s })))
        | some (err e, s) ↦
            decrypt_previous (record p { noise_session = some s }) e ciphertext counter aad
      ]
    ]

    unfoldable pub handle_encrypted_frame :
        Bool → Node P H → ReceivedPacket → ℕ → Option (Handled × Node P H)
    unfolding cut_over assertion_passes decrypt_frame finish_frame
    handle_encrypted_frame debug_assertions n packet now = elim (parse_encrypted packet.bytes) [
      | none ↦ some (dropped, n)
      | some header ↦
          let key = index_key packet.transport_id header.receiver_idx in
          elim (get n.peers_by_index key) [
            | none ↦ some (dropped, n)
            | some a ↦ elim (get n.peers a) [
              | none ↦ some (dropped, record n { peers_by_index = remove n.peers_by_index key })
              | some peer ↦
                  let k_bit = not (bit_and header.flags flag_key_epoch == 0) in
                  let p = cut_over peer k_bit now in
                  if assertion_passes debug_assertions n peer k_bit now
                  then elim (decrypt_frame p (drop 16 packet.bytes) header.counter
                      header.header_bytes) [
                        | none ↦ none
                        | some d ↦ some (finish_frame (put_peer n a p) a header packet d)
                      ]
                  else none
            ]
          ]
    ]

    -- The packet for the peer, up to the socket.
    unfoldable pub seal_link_message : Peer P H → Bool → Bool → ℕ → List ℕ → Sealed × Peer P H
    seal_link_message p sp_flag ce_flag now message = elim p.their_index [
      | none ↦ (no_their_index, p)
      | some their_index ↦ elim p.noise_session [
        | none ↦ (no_noise_session, p)
        | some session ↦
            let inner = prepend_inner_header ((now - p.session_start) % 2 ^ 32) message in
            let header =
              build_established_header their_index (current_send_counter session)
                (frame_flags sp_flag ce_flag p.current_k_bit) (length inner % 2 ^ 16) in
            let (r, s) = encrypt_with_aad api session inner header in
            let q = record p { noise_session = some s } in
            elim r [
              | err e ↦ (encryption_failed e, q)
              | ok ciphertext ↦ (wire_packet (build_encrypted header ciphertext), q)
            ]
      ]
    ]
