-- ===== src/Noise/Session.antt =====
-- fips/src/noise/session.rs: `NoiseSession`, transport encryption with replay protection.
-- The window's panic is `none`.
pub mod Delivery
use fips_native.Base.{ℕ, ◌+◌, List, [], Bool, true, false, Option, none, some, if◌then◌else◌}
use fips_native.Noise.Replay
use fips_native.Noise.Replay.{ReplayWindow, check, accept}
use fips_native.Noise.Cipher
use fips_native.Noise.Cipher.{NoiseResult, ok, err, replay_detected, CipherState, AeadApi}

pub data HandshakeRole : Type 0 where
  initiator : HandshakeRole
  responder : HandshakeRole

-- `P` is the crate's type of public keys.
pub record NoiseSession (P : Type 0) : Type 0 where
  pub role : HandshakeRole
  pub send_cipher : CipherState
  pub recv_cipher : CipherState
  pub handshake_hash : List ℕ
  pub remote_static : P
  pub replay_window : ReplayWindow

module _ {P : Type 0} where
  unfoldable pub from_handshake :
      HandshakeRole → CipherState → CipherState → List ℕ → P → NoiseSession P
  from_handshake r s d h p = record {
    role = r;
    send_cipher = s;
    recv_cipher = d;
    handshake_hash = h;
    remote_static = p;
    replay_window = Replay.new;
  }

  abbrev pub current_send_counter : NoiseSession P → ℕ
  current_send_counter s = s.send_cipher.nonce

  unfoldable check_replay : NoiseSession P → ℕ → NoiseResult
  check_replay s counter =
      if check s.replay_window counter then ok [] else err (replay_detected counter)

  unfoldable reset_replay_window : NoiseSession P → NoiseSession P
  reset_replay_window s = record s { replay_window = Replay.reset s.replay_window }

  -- `accept`, once the message is decrypted.
  unfoldable pub accept_into :
      NoiseSession P → List ℕ → Option ReplayWindow → Option (NoiseResult × NoiseSession P)
  accept_into s plaintext none = none
  accept_into s plaintext (some w) = some (ok plaintext, record s { replay_window = w })

  unfoldable pub after_decryption :
      NoiseSession P → ℕ → NoiseResult → Option (NoiseResult × NoiseSession P)
  unfolding accept_into
  after_decryption s counter (err e) = some (err e, s)
  after_decryption s counter (ok b) = accept_into s b (accept s.replay_window counter)

  module _ (api : AeadApi) where
    unfoldable pub encrypt_with_aad :
        NoiseSession P → List ℕ → List ℕ → NoiseResult × NoiseSession P
    encrypt_with_aad s plaintext aad =
        let (r, c) = Cipher.encrypt_with_aad api s.send_cipher plaintext aad in
        (r, record s { send_cipher = c })

    abbrev pub encrypt : NoiseSession P → List ℕ → NoiseResult × NoiseSession P
    encrypt s plaintext = encrypt_with_aad s plaintext []

    unfoldable pub decrypt : NoiseSession P → List ℕ → NoiseResult × NoiseSession P
    decrypt s ciphertext =
        let (r, c) = Cipher.decrypt api s.recv_cipher ciphertext in
        (r, record s { recv_cipher = c })

    unfoldable pub decrypt_with_replay_check_and_aad :
        NoiseSession P → List ℕ → ℕ → List ℕ → Option (NoiseResult × NoiseSession P)
    unfolding after_decryption
    decrypt_with_replay_check_and_aad s ciphertext counter aad =
        if check s.replay_window counter
        then after_decryption s counter
            (Cipher.decrypt_with_counter_and_aad api s.recv_cipher ciphertext counter aad)
        else some (err (replay_detected counter), s)

    abbrev decrypt_with_replay_check :
        NoiseSession P → List ℕ → ℕ → Option (NoiseResult × NoiseSession P)
    decrypt_with_replay_check s ciphertext counter =
        decrypt_with_replay_check_and_aad s ciphertext counter []
