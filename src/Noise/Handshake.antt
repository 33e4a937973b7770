-- ===== src/Noise/Handshake.antt =====
-- fips/src/noise/handshake.rs: `SymmetricState`, `HandshakeState` and the messages of the Noise
-- patterns IK and XK. The crates are parameters: secp256k1, sha2, hkdf, chacha20poly1305; the random
-- ephemeral key pair is an argument. A failed `expect` is a panic. Left out are the assertions that
-- debug builds make on the lengths of an epoch.
pub mod Symmetric
pub mod Messages
pub mod Xk
use fips_native.Base.{
  ℕ, ◌-◌, List, [], ◌∷◌, ◌++◌, Bool, true, false, Option, none, some, leb, if◌then◌else◌, length,
  take, drop, replicate,
}
use Prim.Native.String.{String}
use fips_native.Noise.Cipher
use fips_native.Noise.Cipher.{NoiseError, NoiseResult, ok, err, CipherState, AeadApi}
use fips_native.Noise.Session.{HandshakeRole, initiator, responder}

-- The crates: keys of secp256k1 and the point of a Diffie-Hellman exchange (64 bytes), SHA-256, and
-- the 64 bytes that HKDF gives on a salt and its input.
pub record CryptoApi : Type 1 where
  pub PublicKey : Type 0
  pub Keypair : Type 0
  pub public_key : Keypair → PublicKey
  pub serialize : PublicKey → List ℕ
  pub from_slice : List ℕ → Option PublicKey
  pub shared_secret_point : PublicKey → Keypair → List ℕ
  pub sha256 : List ℕ → List ℕ
  pub hkdf : List ℕ → List ℕ → List ℕ
  pub aead : AeadApi

pub data NoisePattern : Type 0 where
  ik : NoisePattern
  xk : NoisePattern

pub data HandshakeProgress : Type 0 where
  initial : HandshakeProgress
  message1_done : HandshakeProgress
  message2_done : HandshakeProgress
  complete : HandshakeProgress

abbrev pub progress_text : HandshakeProgress → String
progress_text initial = "initial"
progress_text message1_done = "message1_done"
progress_text message2_done = "message2_done"
progress_text complete = "complete"

abbrev pub role_text : HandshakeRole → String
role_text initiator = "initiator"
role_text responder = "responder"

abbrev pub same_role : HandshakeRole → HandshakeRole → Bool
same_role initiator initiator = true
same_role responder responder = true
same_role initiator responder = false
same_role responder initiator = false

abbrev pub progress_rank : HandshakeProgress → ℕ
progress_rank initial = 0
progress_rank message1_done = 1
progress_rank message2_done = 2
progress_rank complete = 3

-- `Noise_IK_secp256k1_ChaChaPoly_SHA256`.
abbrev pub protocol_name_ik : List ℕ
protocol_name_ik =
    78 ∷ 111 ∷ 105 ∷ 115 ∷ 101 ∷ 95 ∷ 73 ∷ 75 ∷ 95 ∷ 115 ∷ 101 ∷ 99 ∷ 112 ∷ 50 ∷ 53 ∷ 54 ∷ 107 ∷ 49
    ∷ 95 ∷ 67 ∷ 104 ∷ 97 ∷ 67 ∷ 104 ∷ 97 ∷ 80 ∷ 111 ∷ 108 ∷ 121 ∷ 95 ∷ 83 ∷ 72 ∷ 65 ∷ 50 ∷ 53 ∷ 54
    ∷ []

-- `Noise_XK_secp256k1_ChaChaPoly_SHA256`.
abbrev pub protocol_name_xk : List ℕ
protocol_name_xk =
    78 ∷ 111 ∷ 105 ∷ 115 ∷ 101 ∷ 95 ∷ 88 ∷ 75 ∷ 95 ∷ 115 ∷ 101 ∷ 99 ∷ 112 ∷ 50 ∷ 53 ∷ 54 ∷ 107 ∷ 49
    ∷ 95 ∷ 67 ∷ 104 ∷ 97 ∷ 67 ∷ 104 ∷ 97 ∷ 80 ∷ 111 ∷ 108 ∷ 121 ∷ 95 ∷ 83 ∷ 72 ∷ 65 ∷ 50 ∷ 53 ∷ 54
    ∷ []

pub record SymmetricState : Type 0 where
  pub ck : List ℕ
  pub h : List ℕ
  pub cipher : CipherState

pub data Outcome {ℓ} (A : Type ℓ) : Type ℓ where
  done : A → Outcome A
  fails : NoiseError → Outcome A
  panic : Outcome A

module _ (api : CryptoApi) where
  unfoldable pub initialize : List ℕ → SymmetricState
  initialize protocol_name =
      let h =
        if leb (length protocol_name) 32
        then protocol_name ++ replicate (32 - length protocol_name) 0
        else api.sha256 protocol_name in
      record { ck = h; h = h; cipher = Cipher.empty }

  abbrev pub mix_hash : SymmetricState → List ℕ → SymmetricState
  mix_hash y b = record y { h = api.sha256 (y.h ++ b) }

  abbrev pub mix_key : SymmetricState → List ℕ → SymmetricState
  mix_key y b =
      let output = api.hkdf y.ck b in
      record y { ck = take 32 output; cipher = Cipher.new (drop 32 output) }

  -- The hash takes up a ciphertext that the cipher gave, and one that it could read.
  abbrev pub after_encryption :
      SymmetricState → NoiseResult × CipherState → NoiseResult × SymmetricState
  after_encryption y (err e, c) = (err e, record y { cipher = c })
  after_encryption y (ok b, c) = (ok b, mix_hash (record y { cipher = c }) b)

  abbrev pub after_decryption :
      SymmetricState → List ℕ → NoiseResult × CipherState → NoiseResult × SymmetricState
  after_decryption y ciphertext (err e, c) = (err e, record y { cipher = c })
  after_decryption y ciphertext (ok m, c) = (ok m, mix_hash (record y { cipher = c }) ciphertext)

  unfoldable pub encrypt_and_hash : SymmetricState → List ℕ → NoiseResult × SymmetricState
  encrypt_and_hash y plaintext = after_encryption y (Cipher.encrypt api.aead y.cipher plaintext)

  unfoldable pub decrypt_and_hash : SymmetricState → List ℕ → NoiseResult × SymmetricState
  decrypt_and_hash y ciphertext =
      after_decryption y ciphertext (Cipher.decrypt api.aead y.cipher ciphertext)

  unfoldable pub split : SymmetricState → CipherState × CipherState
  split y =
      let output = api.hkdf y.ck [] in (Cipher.new (take 32 output), Cipher.new (drop 32 output))

  pub record HandshakeState : Type 0 where
    pub pattern_of : NoisePattern
    pub role : HandshakeRole
    pub progress : HandshakeProgress
    pub symmetric : SymmetricState
    pub static_keypair : api.Keypair
    pub ephemeral_keypair : Option api.Keypair
    pub remote_static : Option api.PublicKey
    pub remote_ephemeral : Option api.PublicKey
    pub local_epoch : Option (List ℕ)
    pub remote_epoch : Option (List ℕ)

  -- The first byte is set to 2.
  unfoldable pub normalize_for_premessage : api.PublicKey → List ℕ
  normalize_for_premessage key = 2 ∷ drop 1 (api.serialize key)

  -- The body that the four constructors share.
  abbrev pub start :
      NoisePattern
      → List ℕ
      → HandshakeRole
      → api.Keypair
      → Option api.PublicKey
      → api.PublicKey
      → HandshakeState
  start pattern_of protocol_name role static_keypair remote_static premessage = record {
    pattern_of = pattern_of;
    role = role;
    progress = initial;
    symmetric = mix_hash (initialize protocol_name) (normalize_for_premessage premessage);
    static_keypair = static_keypair;
    ephemeral_keypair = none;
    remote_static = remote_static;
    remote_ephemeral = none;
    local_epoch = none;
    remote_epoch = none;
  }

  unfoldable pub new_initiator : api.Keypair → api.PublicKey → HandshakeState
  new_initiator static_keypair remote_static =
      start ik protocol_name_ik initiator static_keypair (some remote_static) remote_static

  unfoldable pub new_responder : api.Keypair → HandshakeState
  new_responder static_keypair =
      start ik protocol_name_ik responder static_keypair none (api.public_key static_keypair)

  unfoldable pub new_xk_initiator : api.Keypair → api.PublicKey → HandshakeState
  new_xk_initiator static_keypair remote_static =
      start xk protocol_name_xk initiator static_keypair (some remote_static) remote_static

  unfoldable pub new_xk_responder : api.Keypair → HandshakeState
  new_xk_responder static_keypair =
      start xk protocol_name_xk responder static_keypair none (api.public_key static_keypair)

  abbrev pub set_local_epoch : HandshakeState → List ℕ → HandshakeState
  set_local_epoch s epoch = record s { local_epoch = some epoch }

  -- SHA-256 of the first coordinate.
  unfoldable pub ecdh : api.Keypair → api.PublicKey → List ℕ
  ecdh ours theirs = api.sha256 (take 32 (api.shared_secret_point theirs ours))
