-- ===== src/Noise/Handshake/Messages/Shared.antt =====
-- fips/src/noise/handshake.rs: lemmas that the handshakes of both patterns share.
use fips_native.Base.{
  ℕ, ◌≡◌, refl, ap, sym, ◌∙◌, arith, List, ◌++◌, true, some, ◌==◌, length, take, drop, take-append,
  drop-append,
}
use fips_native.Noise.Cipher.{ok}
use fips_native.Noise.Session.{NoiseSession}
use fips_native.Noise.Handshake.{
  CryptoApi, HandshakeProgress, SymmetricState, done, HandshakeState, ecdh,
}
use fips_native.Noise.Handshake.Symmetric.{IsCryptoApi}
use fips_native.Noise.Handshake.Messages.{Step, sized, epoch_read}

-- The slices of a message of two or three parts.
pub front : (n : ℕ) (xs ys : List ℕ) → length xs ≡ n → take n (xs ++ ys) ≡ xs
front n xs ys e = rw (← e) (take-append xs ys)

pub back : (n : ℕ) (xs ys : List ℕ) → length xs ≡ n → drop n (xs ++ ys) ≡ ys
back n xs ys e = rw (← e) (drop-append xs ys)

module _ (api : CryptoApi) where
  pub sized_met :
      {A : Type 0} (s : HandshakeState api) (size : ℕ) (message : List ℕ) (go : Step api A)
      → (length message == size) ≡ true
      → sized api s size message go ≡ go
  sized_met s size message go h = rw h refl

  pub epoch_met :
      (s : HandshakeState api) (progress : HandshakeProgress) (epoch : List ℕ) (y : SymmetricState)
      → length epoch ≡ 8
      → epoch_read api s progress (ok epoch, y)
        ≡ (done tt, record s { symmetric = y; remote_epoch = some epoch; progress = progress })
  epoch_met s progress epoch y h =
      let eight : (length epoch == 8) ≡ true = ground (arith, h) in rw eight refl

  -- The two sessions that fit together: each sends with the other's receiving cipher.
  pub record Fit (a b : NoiseSession api.PublicKey) : Type 0 where
    pub sends : a.send_cipher ≡ b.recv_cipher
    pub receives : a.recv_cipher ≡ b.send_cipher
    pub long : length a.send_cipher.key ≡ 32
    pub long_back : length b.send_cipher.key ≡ 32
    pub same_hash : a.handshake_hash ≡ b.handshake_hash

module _ (api : CryptoApi) (law : IsCryptoApi api) where
  -- A key that is known up to its parity gives the same secrets.
  pub ecdh_parity :
      (a b : api.Keypair) (rs : api.PublicKey)
      → drop 1 (api.serialize rs) ≡ drop 1 (api.serialize (api.public_key b))
      → ecdh api b (api.public_key a) ≡ ecdh api a rs
  unfolding ecdh
  ecdh_parity a b rs h =
      ap (λ t. api.sha256 (take 32 t)) (law.exchange a b)
      ∙ ap api.sha256 (sym (law.parity rs (api.public_key b) a h))
