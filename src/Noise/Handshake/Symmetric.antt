-- ===== src/Noise/Handshake/Symmetric.antt =====
-- fips/src/noise/handshake.rs: what one side encrypts into the transcript, the other reads out.
use fips_native.Base.{
  ℕ, ◌+◌, ◌^◌, ◌≤◌, ◌<◌, ◌≡◌, refl, ap, sym, arith, List, true, some, length, take, drop,
  length-drop,
}
use mathlib.Core.Path.{subst}
use fips_native.Noise.Cipher.{ok, CipherState, IsAeadApi}
use fips_native.Noise.Cipher.Laws.{decrypt-encrypt_in_turn}
use fips_native.Noise.Handshake.{
  CryptoApi, SymmetricState, mix_hash, mix_key, after_encryption, after_decryption,
  encrypt_and_hash, decrypt_and_hash, ecdh,
}

-- What the crates document: a public key has 33 bytes and is read back from them; both sides of an
-- exchange find the same point, and keys that differ in the first byte (the parity) only give
-- points with the same first coordinate; HKDF gives the 64 bytes that are asked for.
pub record IsCryptoApi (api : CryptoApi) : Type 0 where
  pub length_serialize : (p : api.PublicKey) → length (api.serialize p) ≡ 33
  pub from_slice-serialize : (p : api.PublicKey) → api.from_slice (api.serialize p) ≡ some p
  pub exchange :
      (a b : api.Keypair)
      → api.shared_secret_point (api.public_key a) b ≡ api.shared_secret_point (api.public_key b) a
  pub parity :
      (p q : api.PublicKey) (k : api.Keypair)
      → drop 1 (api.serialize p) ≡ drop 1 (api.serialize q)
      → take 32 (api.shared_secret_point p k) ≡ take 32 (api.shared_secret_point q k)
  pub length_hkdf : (salt input : List ℕ) → length (api.hkdf salt input) ≡ 64
  pub aead : IsAeadApi api.aead

-- A cipher that is ready for `n` more messages.
pub record Ready (c : CipherState) : Type 0 where
  pub keyed : c.has_key ≡ true
  pub long : length c.key ≡ 32
  pub room : c.nonce + 1 < 2 ^ 64

module _ (api : CryptoApi) (law : IsCryptoApi api) where
  pub ecdh_comm :
      (a b : api.Keypair) → ecdh api a (api.public_key b) ≡ ecdh api b (api.public_key a)
  unfolding ecdh
  ecdh_comm a b = rw (ecdh, law.exchange a b) refl

  pub mix_key-Ready : (y : SymmetricState) (b : List ℕ) → Ready (mix_key api y b).cipher
  mix_key-Ready y b = record {
    keyed = refl;
    long = omega (arith, length-drop 32 (api.hkdf y.ck b), law.length_hkdf y.ck b);
    room = omega arith;
  }

  -- What was encrypted into a transcript is decrypted from an equal one, and both stay equal.
  pub decrypt-encrypt_and_hash :
      (y : SymmetricState) (m : List ℕ)
      → Ready y.cipher
      → length m ≤ 64
      → (b : List ℕ) × (z : SymmetricState) × (encrypt_and_hash api y m ≡ (ok b, z))
        × (decrypt_and_hash api y b ≡ (ok m, z))
        × (length b ≡ length m + 16)
        × (z.cipher ≡ record y.cipher { nonce = y.cipher.nonce + 1 })
  unfolding encrypt_and_hash decrypt_and_hash
  decrypt-encrypt_and_hash y m r fits =
      let (b, e, d, l) =
        decrypt-encrypt_in_turn api.aead law.aead y.cipher m r.keyed r.long r.room (omega arith) in
      let moved : CipherState = record y.cipher { nonce = y.cipher.nonce + 1 } in
      (
        b,
        mix_hash api (record y { cipher = moved }) b,
        ap (after_encryption api y) e,
        ap (after_decryption api y b) d,
        l,
        refl,
      )

  -- Behind one message under a fresh key.
  pub mix_key_next-Ready :
      (y : SymmetricState) (b : List ℕ) (c : CipherState)
      → c ≡ record (mix_key api y b).cipher { nonce = 0 + 1 }
      → Ready c
  mix_key_next-Ready y b c e =
      let r = mix_key-Ready y b in
      subst Ready (sym e) (record { keyed = r.keyed; long = r.long; room = omega arith })
