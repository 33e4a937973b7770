-- ===== src/Noise/Cipher.antt =====
-- fips/src/noise/mod.rs: `CipherState`, the symmetric cipher behind a Noise session.
-- The AEAD (the chacha20poly1305 crate) is not part of the sources: it is a parameter. The crate
-- reads a bare slice as a payload with empty associated data.
pub mod Laws
use fips_native.Base.{
  ℕ, suc, ◌+◌, ◌-◌, ◌^◌, ◌≤◌, ◌<◌, ◌≡◌, List, [], ◌++◌, Bool, true, false, Option, none, some, ltb,
  ◌==◌, if◌then◌else◌, length, replicate,
}
use Prim.Native.String.{String}
use fips_native.Codec.Bytes.{le_bytes}

abbrev pub max_message_size : ℕ
max_message_size = 65535

abbrev pub tag_size : ℕ
tag_size = 16

abbrev pub u64_max : ℕ
u64_max = 2 ^ 64 - 1

-- Less the variant that wraps an error of the secp256k1 crate.
pub data NoiseError : Type 0 where
  handshake_not_complete : NoiseError
  handshake_already_complete : NoiseError
  wrong_state : String → String → NoiseError
  invalid_public_key : NoiseError
  message_too_short : ℕ → ℕ → NoiseError
  message_too_large : ℕ → ℕ → NoiseError
  encryption_failed : NoiseError
  decryption_failed : NoiseError
  nonce_overflow : NoiseError
  replay_detected : ℕ → NoiseError

pub data NoiseResult : Type 0 where
  ok : List ℕ → NoiseResult
  err : NoiseError → NoiseResult

-- The crate: whether it takes a key, and its two directions on key, nonce, associated data, bytes.
pub record AeadApi : Type 0 where
  pub takes_key : List ℕ → Bool
  pub seal : List ℕ → List ℕ → List ℕ → List ℕ → Option (List ℕ)
  pub unseal : List ℕ → List ℕ → List ℕ → List ℕ → Option (List ℕ)

-- What the crate documents: keys have 32 bytes, a message of ordinary size is sealed with a tag,
-- and a sealed message is read back under the same key, nonce and associated data.
pub record IsAeadApi (api : AeadApi) : Type 0 where
  pub takes_key : (k : List ℕ) → length k ≡ 32 → api.takes_key k ≡ true
  pub seal :
      (k n a m : List ℕ)
      → length m ≤ max_message_size
      → (c : List ℕ) × (api.seal k n a m ≡ some c)
        × (length c ≡ length m + tag_size)
        × (api.unseal k n a c ≡ some m)

pub record CipherState : Type 0 where
  pub key : List ℕ
  pub nonce : ℕ
  pub has_key : Bool

abbrev pub new : List ℕ → CipherState
new k = record { key = k; nonce = 0; has_key = true }

abbrev pub empty : CipherState
empty = record { key = replicate 32 0; nonce = 0; has_key = false }

abbrev initialize_key : CipherState → List ℕ → CipherState
initialize_key c k = record { key = k; nonce = 0; has_key = true }

unfoldable pub counter_to_nonce : ℕ → List ℕ
counter_to_nonce counter = replicate 4 0 ++ le_bytes 8 counter

unfoldable pub next_nonce : CipherState → NoiseResult × CipherState
next_nonce c =
    if c.nonce == u64_max
    then (err nonce_overflow, c)
    else (ok (replicate 4 0 ++ le_bytes 8 c.nonce), record c { nonce = c.nonce + 1 })

-- `map_err` of the crate's answer.
unfoldable pub answer : NoiseError → Option (List ℕ) → NoiseResult
answer e none = err e
answer e (some b) = ok b

module _ (api : AeadApi) where
  -- The tail of `encrypt` and of `decrypt`, on the next nonce.
  unfoldable pub seal_with : List ℕ → List ℕ → NoiseResult × CipherState → NoiseResult × CipherState
  unfolding answer
  seal_with plaintext aad (err e, c) = (err e, c)
  seal_with plaintext aad (ok n, c) = (answer encryption_failed (api.seal c.key n aad plaintext), c)

  unfoldable pub unseal_with : List ℕ → NoiseResult × CipherState → NoiseResult × CipherState
  unfolding answer
  unseal_with ciphertext (err e, c) = (err e, c)
  unseal_with ciphertext (ok n, c) =
      (answer decryption_failed (api.unseal c.key n [] ciphertext), c)

  unfoldable pub encrypt_with_aad : CipherState → List ℕ → List ℕ → NoiseResult × CipherState
  unfolding seal_with next_nonce
  encrypt_with_aad c plaintext aad =
      if c.has_key
      then (if ltb (max_message_size - tag_size) (length plaintext)
          then (err (message_too_large (length plaintext) (max_message_size - tag_size)), c)
          else (if api.takes_key c.key
              then seal_with plaintext aad (next_nonce c)
              else (err encryption_failed, c)))
      else (ok plaintext, c)

  abbrev pub encrypt : CipherState → List ℕ → NoiseResult × CipherState
  encrypt c plaintext = encrypt_with_aad c plaintext []

  unfoldable pub decrypt : CipherState → List ℕ → NoiseResult × CipherState
  unfolding unseal_with next_nonce
  decrypt c ciphertext =
      if c.has_key
      then (if ltb (length ciphertext) tag_size
          then (err (message_too_short tag_size (length ciphertext)), c)
          else (if api.takes_key c.key
              then unseal_with ciphertext (next_nonce c)
              else (err decryption_failed, c)))
      else (ok ciphertext, c)

  unfoldable pub decrypt_with_counter_and_aad : CipherState → List ℕ → ℕ → List ℕ → NoiseResult
  unfolding answer counter_to_nonce
  decrypt_with_counter_and_aad c ciphertext counter aad =
      if c.has_key
      then (if ltb (length ciphertext) tag_size
          then err (message_too_short tag_size (length ciphertext))
          else (if api.takes_key c.key
              then answer decryption_failed
                  (api.unseal c.key (counter_to_nonce counter) aad ciphertext)
              else err decryption_failed))
      else ok ciphertext

  abbrev decrypt_with_counter : CipherState → List ℕ → ℕ → NoiseResult
  decrypt_with_counter c ciphertext counter = decrypt_with_counter_and_aad c ciphertext counter []
