-- ===== src/Noise/Cipher/Laws.antt =====
-- `CipherState`: no nonce is used twice, and what is sealed is read back.
use fips_native.Base.{
  ℕ, ◌+◌, ◌-◌, ◌^◌, ◌≤◌, ◌<◌, ◌≡◌, refl, inl, inr, arith, List, [], true, false, ltb, ◌==◌, length,
  Bool-cases, le→ltb,
}
use fips_native.Noise.Cipher.{
  NoiseError, NoiseResult, ok, err, encryption_failed, AeadApi, IsAeadApi, CipherState, u64_max,
  counter_to_nonce, next_nonce, answer, encrypt_with_aad, decrypt_with_counter_and_aad, decrypt,
  seal_with, unseal_with, max_message_size, tag_size,
}

module _ (api : AeadApi) where
  -- What an encryption did: the result and the next state, of the state before.
  pub data Sealing (c : CipherState) (p a : List ℕ) : NoiseResult → CipherState → Type 0 where
    -- Nothing was sealed and the cipher is as it was.
    refused : {e : NoiseError} → Sealing c p a (err e) c
    -- The nonce at hand was used, and the next one is above it and below 2 ^ 64.
    used :
        c.nonce + 1 < 2 ^ 64
        → Sealing c p a
            (answer encryption_failed (api.seal c.key (counter_to_nonce c.nonce) a p))
            (record c { nonce = c.nonce + 1 })

  -- Every encryption under a key, with a nonce below 2 ^ 64, refuses and leaves the cipher as it
  -- was, or seals under the nonce at hand and moves on to the next nonce, below 2 ^ 64.
  pub encrypt-Sealing :
      (c : CipherState) (p a : List ℕ)
      → c.has_key ≡ true
      → c.nonce < 2 ^ 64
      → Sealing c p a ((encrypt_with_aad api c p a).0) ((encrypt_with_aad api c p a).1)
  unfolding encrypt_with_aad counter_to_nonce
  encrypt-Sealing c p a k l =
      rw k (elim (Bool-cases (ltb (max_message_size - tag_size) (length p))) [
        | inl big ↦ rw big refused
        | inr fits ↦ rw fits (elim (Bool-cases (api.takes_key c.key)) [
          | inr bad ↦ rw bad refused
          | inl good ↦ rw good (elim (Bool-cases (c.nonce == u64_max)) [
            | inl last ↦ rw (next_nonce, last) refused
            | inr more ↦ rw (next_nonce, more) (used (ground arith))
          ])
        ])
      ])

  -- A message that fits the size limit is sealed by encrypt_with_aad under a key of 32 bytes
  -- before the last nonce, and decrypt_with_counter_and_aad reads it back on that counter under
  -- the same key and associated data.
  pub unseal-seal :
      IsAeadApi api
      → (c d : CipherState) (p a : List ℕ) → c.has_key ≡ true
      → d.has_key ≡ true
      → length c.key ≡ 32
      → d.key ≡ c.key
      → c.nonce + 1 < 2 ^ 64
      → length p ≤ max_message_size - tag_size
      → (b : List ℕ) × (encrypt_with_aad api c p a ≡ (ok b, record c { nonce = c.nonce + 1 }))
        × (decrypt_with_counter_and_aad api d b c.nonce a ≡ ok p)
  unfolding encrypt_with_aad decrypt_with_counter_and_aad counter_to_nonce
  unseal-seal law c d p a kc kd long same room fits =
      let (b, sealed, grown, opened) =
        law.seal c.key (counter_to_nonce c.nonce) a p (omega arith) in
      (
        b,
        rw
            (
              kc,
              le→ltb (max_message_size - tag_size) (length p) fits,
              law.takes_key c.key long,
              next_nonce,
              ground_ne,
              sealed,
              answer,
            )
            refl,
        rw
            (
              kd,
              same,
              le→ltb (length b) tag_size (omega arith),
              law.takes_key c.key long,
              opened,
              answer,
            )
            refl,
      )
    where
      ground_ne : (c.nonce == u64_max) ≡ false
      ground_ne = ground arith

  -- The same, in turn: one cipher's next message is read by an equal cipher as its next.
  pub decrypt-encrypt_in_turn :
      IsAeadApi api
      → (c : CipherState) (p : List ℕ) → c.has_key ≡ true
      → length c.key ≡ 32
      → c.nonce + 1 < 2 ^ 64
      → length p ≤ max_message_size - tag_size
      → (b : List ℕ) × (encrypt_with_aad api c p [] ≡ (ok b, record c { nonce = c.nonce + 1 }))
        × (decrypt api c b ≡ (ok p, record c { nonce = c.nonce + 1 }))
        × (length b ≡ length p + tag_size)
  unfolding encrypt_with_aad decrypt counter_to_nonce seal_with unseal_with
  decrypt-encrypt_in_turn law c p kc long room fits =
      let (b, sealed, grown, opened) =
        law.seal c.key (counter_to_nonce c.nonce) [] p (omega arith) in
      let takes = law.takes_key c.key long in
      (
        b,
        rw
            (
              kc,
              le→ltb (max_message_size - tag_size) (length p) fits,
              takes,
              next_nonce,
              ground_ne,
              sealed,
              answer,
            )
            refl,
        rw
            (
              kc,
              le→ltb (length b) tag_size (omega arith),
              takes,
              next_nonce,
              ground_ne,
              opened,
              answer,
            )
            refl,
        grown,
      )
    where
      ground_ne : (c.nonce == u64_max) ≡ false
      ground_ne = ground arith
