-- ===== src/Noise/Session/Delivery.antt =====
-- A session's receiving side: nothing is delivered twice, and what the peer sent is delivered.
use fips_native.Base.{
  ℕ, ◌+◌, ◌-◌, ◌^◌, ◌≤◌, ◌<◌, ◌≡◌, refl, inl, inr, List, [], ◌∷◌, true, false, Option, none, some,
  Bool-cases, length,
}
use fips_native.Noise.Replay.{ReplayWindow, check}
use fips_native.Noise.Replay.Window.{Represents, IsRecent, seen, check_correct, accept_correct}
use fips_native.Noise.Cipher.{
  NoiseError, NoiseResult, ok, err, replay_detected, CipherState, AeadApi, IsAeadApi,
}
use fips_native.Noise.Cipher
use fips_native.Noise.Cipher.Laws.{unseal-seal}
use fips_native.Noise.Session.{
  NoiseSession, accept_into, after_decryption, encrypt_with_aad, decrypt_with_replay_check_and_aad,
}

-- A packet as it arrives: ciphertext, counter and header.
pub record Packet : Type 0 where
  pub ciphertext : List ℕ
  pub counter : ℕ
  pub aad : List ℕ

-- No counter stands twice in a history.
unfoldable pub Once : List ℕ → Type 0
Once [] = Unit {0}
Once (h ∷ hs) = (seen hs h ≡ false) × Once hs

module _ {P : Type 0} (api : AeadApi) where
  -- What one packet did, to the session and to the history of delivered counters.
  pub data Delivered (s : NoiseSession P) (hs : List ℕ) (c : ℕ)
      : Option (NoiseResult × NoiseSession P) → Type 0 where
    refused : {e : NoiseError} → Delivered s hs c (some (err e, s))
    delivered :
        {b : List ℕ} {w : ReplayWindow}
        → seen hs c ≡ false
        → Represents w (c ∷ hs)
        → Delivered s hs c (some (ok b, record s { replay_window = w }))

  -- On any packet a session whose window represents a history does not panic: it refuses with an
  -- error and is left as it was, or it delivers a counter that was not delivered before and
  -- records it.
  pub decrypt-Delivered :
      (s : NoiseSession P) (hs : List ℕ) (b : List ℕ) (c : ℕ) (a : List ℕ)
      → Represents s.replay_window hs
      → Delivered s hs c (decrypt_with_replay_check_and_aad api s b c a)
  unfolding decrypt_with_replay_check_and_aad after_decryption accept_into
  decrypt-Delivered s hs b c a r = elim (Bool-cases (check s.replay_window c)) [
    | inr stale ↦ rw stale refused
    | inl fresh ↦
        rw fresh
          (elim (Cipher.decrypt_with_counter_and_aad api s.recv_cipher b c a)
            as (λ x. Delivered s hs c (after_decryption s c x)) [
              | err e ↦ refused
              | ok m ↦
                  let (new, recent) = (check_correct s.replay_window hs c r).0 fresh in
                  let (w, e, r') = accept_correct s.replay_window hs c r recent in
                  rw (e, accept_into) (delivered new r')
            ])
  ]

  -- Packets in the order of their arrival; the history of delivered counters, newest first.
  unfoldable pub receive : NoiseSession P → List ℕ → List Packet → Option (List ℕ × NoiseSession P)
  receive s hs [] = some (hs, s)
  receive s hs (p ∷ ps) =
      elim (decrypt_with_replay_check_and_aad api s p.ciphertext p.counter p.aad) [
        | none ↦ none
        | some x ↦ elim x.0 [ ok b ↦ receive x.1 (p.counter ∷ hs) ps | err e ↦ receive x.1 hs ps ]
      ]

  receive_one :
      (s : NoiseSession P) (hs : List ℕ) (p : Packet) (ps : List Packet)
      → Represents s.replay_window hs
      → Once hs
      → ((s' : NoiseSession P) (hs' : List ℕ)
          → Represents s'.replay_window hs'
          → Once hs'
          → (out : List ℕ × NoiseSession P) × (receive s' hs' ps ≡ some out)
            × Once out.0
            × Represents out.1.replay_window out.0)
      → (o : Option (NoiseResult × NoiseSession P)) → Delivered s hs p.counter o
      → (out : List ℕ × NoiseSession P) × (elim o as (λ _. Option (List ℕ × NoiseSession P)) [
        | none ↦ none
        | some x ↦ elim x.0 [ ok b ↦ receive x.1 (p.counter ∷ hs) ps | err e ↦ receive x.1 hs ps ]
      ]
          ≡ some out)
        × Once out.0
        × Represents out.1.replay_window out.0
  unfolding Once
  receive_one s hs p ps r u k o refused = k s hs r u
  receive_one s hs p ps r u k o (delivered {w = w} new r') =
      k (record s { replay_window = w }) (p.counter ∷ hs) r' (new, u)

  -- On a session whose window represents a history of counters without repeats, whatever packets
  -- arrive, in whatever order, are all taken without a panic, no counter is delivered twice, and
  -- the window represents exactly the delivered counters.
  pub receive-Once :
      (s : NoiseSession P) (hs : List ℕ) (ps : List Packet)
      → Represents s.replay_window hs
      → Once hs
      → (out : List ℕ × NoiseSession P) × (receive s hs ps ≡ some out)
        × Once out.0
        × Represents out.1.replay_window out.0
  unfolding receive
  receive-Once s hs [] r u = ((hs, s), refl, u, r)
  receive-Once s hs (p ∷ ps) r u =
      receive_one s hs p ps r u (λ s' hs'. receive-Once s' hs' ps) _
        (decrypt-Delivered s hs p.ciphertext p.counter p.aad r)

  -- Two sessions whose ciphers share a key of 32 bytes deliver: a message that fits the size
  -- limit, encrypted before the last nonce, is decrypted by a receiver whose window represents a
  -- history without this counter and has not moved past it, and the counter is recorded.
  pub decrypt-encrypt :
      IsAeadApi api
      → (s t : NoiseSession P) (hs p a : List ℕ) → s.send_cipher.has_key ≡ true
      → t.recv_cipher.has_key ≡ true
      → length s.send_cipher.key ≡ 32
      → t.recv_cipher.key ≡ s.send_cipher.key
      → s.send_cipher.nonce + 1 < 2 ^ 64
      → length p ≤ Cipher.max_message_size - Cipher.tag_size
      → Represents t.replay_window hs
      → seen hs s.send_cipher.nonce ≡ false
      → IsRecent t.replay_window s.send_cipher.nonce
      → (b : List ℕ) × (w : ReplayWindow) × (encrypt_with_aad api s p a ≡ (
        ok b,
        record s { send_cipher = record s.send_cipher { nonce = s.send_cipher.nonce + 1 } },
      ))
        × (decrypt_with_replay_check_and_aad api t b s.send_cipher.nonce a
            ≡ some (ok p, record t { replay_window = w }))
        × Represents w (s.send_cipher.nonce ∷ hs)
  unfolding encrypt_with_aad decrypt_with_replay_check_and_aad after_decryption accept_into
  decrypt-encrypt law s t hs p a ks kt long same room fits r new recent =
      let (b, e, d) =
        unseal-seal api law s.send_cipher t.recv_cipher p a ks kt long same room fits in
      let (w, f, r') = accept_correct t.replay_window hs s.send_cipher.nonce r recent in
      (
        b,
        w,
        rw e refl,
        rw
            (
              (check_correct t.replay_window hs s.send_cipher.nonce r).1 (new, recent),
              d,
              after_decryption,
              f,
              accept_into,
            )
            refl,
        r',
      )
