-- ===== src/Tests/Noise.antt =====
-- The Noise layer on a toy AEAD, whose sealed message is the message behind 16 zero bytes.
use fips_native.Base.{
  ℕ, ◌+◌, ap, get_or, ◌≡◌, ◌↔◌, refl, arith, List, [], ◌∷◌, ◌++◌, true, false, none, some, ◌==◌,
  length, drop, replicate, length-append,
}
use fips_native.Noise.Replay.{ReplayWindow, check, accept}
use fips_native.Noise.Replay
use fips_native.Noise.Replay.Window.{
  Represents, IsRecent, seen, new-Represents, check_correct, accept_correct, accept_too_old,
}
use fips_native.Noise.Replay.Bitmap.{zeros-IsBitmap}
use fips_native.Noise.Cipher.{
  ok, AeadApi, IsAeadApi, CipherState, encrypt_with_aad, decrypt_with_counter_and_aad,
}
use fips_native.Noise.Cipher.Laws.{Sealing, encrypt-Sealing, unseal-seal}
use fips_native.Noise.Session.{NoiseSession, initiator, decrypt_with_replay_check_and_aad}
use fips_native.Noise.Session
use fips_native.Noise.Session.Delivery.{
  Packet, Once, Delivered, decrypt-Delivered, receive, receive-Once, decrypt-encrypt,
}
use native.Mathlib.Nat.{add_comm}
use fips_native.Noise.Handshake.{CryptoApi}
use fips_native.Noise.Handshake.Symmetric.{IsCryptoApi}
use fips_native.Noise.Handshake.Messages.Agreement.{IkAgreement, ik_agreement}
use fips_native.Noise.Handshake.Xk.Agreement.{XkAgreement, xk_agreement}

abbrev pub toy_aead : AeadApi
toy_aead = record {
  takes_key = λ k. length k == 32;
  seal = λ k n a m. some (replicate 16 0 ++ m);
  unseal = λ k n a c. some (drop 16 c);
}

pub toy_aead-IsAeadApi : IsAeadApi toy_aead
toy_aead-IsAeadApi = record {
  takes_key = λ k h. ground arith;
  seal = λ k n a m h.
      (replicate 16 0 ++ m, refl, omega (arith, length-append (replicate 16 0) m), refl);
}

abbrev pub toy_key : List ℕ
toy_key = replicate 32 7

abbrev pub toy_cipher : CipherState
toy_cipher = record { key = toy_key; nonce = 4; has_key = true }

abbrev pub toy_session : NoiseSession ℕ
toy_session = record {
  role = initiator;
  send_cipher = toy_cipher;
  recv_cipher = toy_cipher;
  handshake_hash = [];
  remote_static = 1;
  replay_window = Replay.new;
}

abbrev toy_packet : Packet
toy_packet = record { ciphertext = replicate 20 0; counter = 9; aad = [] }

check_correct_example : (check Replay.new 5 ≡ true) ↔ ((seen [] 5 ≡ false) × IsRecent Replay.new 5)
check_correct_example = check_correct Replay.new [] 5 new-Represents

accept_correct_example : (w : ReplayWindow) × (accept Replay.new 5 ≡ some w) × Represents w (5 ∷ [])
unfolding Replay.new
accept_correct_example = accept_correct Replay.new [] 5 new-Represents (omega arith)

abbrev far_window : ReplayWindow
far_window = record { highest = 5000; bitmap = replicate 32 0 }

accept_too_old_example : accept far_window 5 ≡ none
accept_too_old_example = accept_too_old far_window 5 zeros-IsBitmap (omega arith)

encrypt-Sealing_example :
    Sealing toy_aead toy_cipher
      (1 ∷ [])
      []
      ((encrypt_with_aad toy_aead toy_cipher (1 ∷ []) []).0)
      ((encrypt_with_aad toy_aead toy_cipher (1 ∷ []) []).1)
encrypt-Sealing_example = encrypt-Sealing toy_aead toy_cipher (1 ∷ []) [] refl (omega arith)

unseal-seal_example :
    (b : List ℕ) × (encrypt_with_aad toy_aead toy_cipher (1 ∷ []) []
      ≡ (ok b, record toy_cipher { nonce = 5 }))
    × (decrypt_with_counter_and_aad toy_aead toy_cipher b 4 [] ≡ ok (1 ∷ []))
unseal-seal_example =
    unseal-seal toy_aead toy_aead-IsAeadApi toy_cipher toy_cipher (1 ∷ []) [] refl refl refl refl
      (omega arith) (omega arith)

decrypt-Delivered_example :
    Delivered toy_aead toy_session [] 9
      (decrypt_with_replay_check_and_aad toy_aead toy_session (replicate 20 0) 9 [])
decrypt-Delivered_example =
    decrypt-Delivered toy_aead toy_session [] (replicate 20 0) 9 [] new-Represents

receive-Once_example :
    (out : List ℕ × NoiseSession ℕ) × (receive toy_aead toy_session []
        (toy_packet ∷ toy_packet ∷ [])
      ≡ some out)
    × Once out.0
    × Represents out.1.replay_window out.0
unfolding Once
receive-Once_example =
    receive-Once toy_aead toy_session [] (toy_packet ∷ toy_packet ∷ []) new-Represents tt

decrypt-encrypt_example :
    (b : List ℕ) × (w : ReplayWindow) × (Session.encrypt_with_aad toy_aead toy_session (1 ∷ []) []
      ≡ (ok b, record toy_session { send_cipher = record toy_cipher { nonce = 5 } }))
    × (decrypt_with_replay_check_and_aad toy_aead toy_session b 4 []
        ≡ some (ok (1 ∷ []), record toy_session { replay_window = w }))
    × Represents w (4 ∷ [])
unfolding seen
decrypt-encrypt_example =
    decrypt-encrypt toy_aead toy_aead-IsAeadApi toy_session toy_session [] (1 ∷ []) [] refl refl
      refl refl (omega arith) (omega arith) new-Represents refl (unfold Replay.new in omega arith)

-- Keys are numbers, an exchange adds them up, and the hash is a length.
abbrev toy_crypto : CryptoApi
toy_crypto = record {
  PublicKey = ℕ;
  Keypair = ℕ;
  public_key = λ k. k;
  serialize = λ p. 3 ∷ p ∷ replicate 31 0;
  from_slice = λ b. elim b [ [] ↦ none | x ∷ xs ↦ elim xs [ [] ↦ none | p ∷ ys ↦ some p ] ];
  shared_secret_point = λ p k. replicate 64 (p + k);
  sha256 = λ b. replicate 32 (length b);
  hkdf = λ salt input. replicate 64 (length input);
  aead = toy_aead;
}

toy_crypto-IsCryptoApi : IsCryptoApi toy_crypto
toy_crypto-IsCryptoApi = record {
  length_serialize = λ p. refl;
  from_slice-serialize = λ p. refl;
  exchange = λ a b. ap (λ n. replicate 64 n) (add_comm a b);
  parity = λ p q k h. ap (λ b. replicate 32 (get_or b 0 0 + k)) h;
  length_hkdf = λ salt input. refl;
  aead = toy_aead-IsAeadApi;
}

abbrev toy_epoch : List ℕ
toy_epoch = replicate 8 1

ik_agreement_example : IkAgreement toy_crypto 11 12 13 14 12 toy_epoch toy_epoch
ik_agreement_example =
    ik_agreement toy_crypto toy_crypto-IsCryptoApi 11 12 13 14 12 toy_epoch toy_epoch refl refl refl

xk_agreement_example : XkAgreement toy_crypto 11 12 13 14 12 toy_epoch toy_epoch
xk_agreement_example =
    xk_agreement toy_crypto toy_crypto-IsCryptoApi 11 12 13 14 12 toy_epoch toy_epoch refl refl refl
