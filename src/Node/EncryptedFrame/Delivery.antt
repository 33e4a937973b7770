-- ===== src/Node/EncryptedFrame/Delivery.antt =====
-- fips/src/node/handlers/encrypted.rs: what a peer seals is dispatched, across a change of keys.
use fips_native.Base.{ℕ, ◌+◌, ◌-◌, ◌%◌, ◌^◌, ◌<◌, ◌≡◌, List, ◌∷◌, length, Bool, true, false, some}
use fips_native.Noise.Replay.{ReplayWindow}
use fips_native.Noise.Replay.Window.{Represents, IsRecent, seen}
use fips_native.Noise.Cipher
use fips_native.Noise.Cipher.{NoiseError, ok, err, AeadApi}
use fips_native.Noise.Session.{NoiseSession, decrypt_with_replay_check_and_aad}
use fips_native.Peer.Active.{reset_decrypt_failures, set_current_addr, touch}
use fips_native.Node.EncryptedFrame.{
  Peer, Node, dispatched, cut_over, plaintext, decrypt_previous, decrypt_frame, put_peer,
  handle_encrypted_frame, wire_packet, seal_link_message,
}

module _ {P : Type 0} (api : AeadApi) where
  decrypt_frame-previous :
      {H : Type 0} (p : Peer P H) (t t' u v : NoiseSession P) (e : NoiseError) (b : List ℕ) (c : ℕ)
      (a m : List ℕ)
      → p.noise_session ≡ some t
      → decrypt_with_replay_check_and_aad api t b c a ≡ some (err e, t')
      → p.previous_session ≡ some u
      → decrypt_with_replay_check_and_aad api u b c a ≡ some (ok m, v)
      → decrypt_frame api p b c a
        ≡ some (
            plaintext m (
              reset_decrypt_failures
                (record p { noise_session = some t'; previous_session = some v })))
  unfolding decrypt_frame decrypt_previous
  decrypt_frame-previous p t t' u v e b c a m h d k f =
      simp (decrypt_frame, h, d, decrypt_previous, k, f)

  -- A sealing session and the one that opens what it seals, of which the counter is new.
  pub record Paired (s t : NoiseSession P) (hs : List ℕ) : Type 0 where
    pub sends : s.send_cipher.has_key ≡ true
    pub opens : t.recv_cipher.has_key ≡ true
    pub long : length s.send_cipher.key ≡ 32
    pub same : t.recv_cipher.key ≡ s.send_cipher.key
    pub room : s.send_cipher.nonce + 1 < 2 ^ 64
    pub window : Represents t.replay_window hs
    pub unseen : seen hs s.send_cipher.nonce ≡ false
    pub recent : IsRecent t.replay_window s.send_cipher.nonce

  -- The message of `p` reaches the node through its peer `a`, whose session becomes `t` with the
  -- counter `nonce` recorded and whose address becomes that of the packet.
  abbrev pub IsDelivery :
      {H : Type 0} (debug_assertions : Bool) (n : Node P H) (p q : Peer P H) (t : NoiseSession P)
      (hs : List ℕ) (nonce a transport_id : ℕ) (addr : List ℕ) (stamp now later : ℕ) (sp ce : Bool)
      (message : List ℕ)
      → Type 0
  IsDelivery debug_assertions n p q t hs nonce a transport_id addr stamp now later sp ce message =
      (packet : List ℕ) × (w : ReplayWindow) × ((seal_link_message api p sp ce now message).0
        ≡ wire_packet packet)
      × (handle_encrypted_frame api debug_assertions n
            (record {
              transport_id = transport_id;
              remote_addr = addr;
              bytes = packet;
              timestamp_ms = stamp;
            })
            later
          ≡ some (
            dispatched a ((now - p.session_start) % 2 ^ 32) message ce,
            put_peer (put_peer n a (cut_over q p.current_k_bit later)) a (
                touch
                  (set_current_addr
                    (reset_decrypt_failures (record (cut_over q p.current_k_bit later) {
                      noise_session = some (record t { replay_window = w });
                    }))
                    transport_id addr)
                  stamp),
          ))
      × Represents w (nonce ∷ hs)
