-- ===== src/Codec/Signature.antt =====
-- Schnorr signatures of the secp256k1 crate, as the messages carry them: 64 bytes that the crate
-- turns into a signature, or refuses, and back.
use fips_native.Base.{ℕ, ◌≡◌, List, Option, some, length}

pub record SignatureApi : Type 1 where
  pub Signature : Type 0
  pub from_slice : List ℕ → Option Signature
  pub as_ref : Signature → List ℕ

-- What the crate documents of the two: 64 bytes, from which the signature is read back.
pub record IsSignatureApi (api : SignatureApi) : Type 0 where
  pub length_as_ref : (s : api.Signature) → length (api.as_ref s) ≡ 64
  pub from_slice-as_ref : (s : api.Signature) → api.from_slice (api.as_ref s) ≡ some s
