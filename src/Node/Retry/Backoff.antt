-- ===== src/Node/Retry/Backoff.antt =====
-- fips/src/node/retry.rs: the delay before a retry.
use fips_native.Base.{
  ℕ, ◌-◌, ◌*◌, ◌^◌, ◌≤◌, ◌<◌, ◌≡◌, ◌∙◌, ap, min, inl, inr, arith, ltb, Bool-cases,
}
use native.Mathlib.Nat.{pow-le-pow_right}
use fips_native.Node.DiscoveryRateLimit.{saturating_mul}
use fips_native.Node.DiscoveryRateLimit.Backoff.{capped}
use fips_native.Node.Retry.{RetryState, multiplier, backoff_ms}

multiplier_lem : (count : ℕ) → multiplier count ≡ min (2 ^ count) (2 ^ 64 - 1)
multiplier_lem count = elim (Bool-cases (ltb count 64)) [
  | inl small ↦
      let p : 2 ^ count ≤ 2 ^ 63 = pow-le-pow_right {n = 2} (omega arith) {j = 63} (ground arith) in
      rw small (omega arith)
  | inr large ↦
      let p : 2 ^ 64 ≤ 2 ^ count = pow-le-pow_right {n = 2} (omega arith) {i = 64} (ground arith) in
      rw large (omega arith)
]

-- The delay is the base doubled for each retry, up to the cap: `checked_shl` and the saturation never
-- show if the cap fits a u64.
pub backoff_ms_lem :
    (s : RetryState) (base cap : ℕ)
    → cap < 2 ^ 64
    → backoff_ms s base cap ≡ min (base * 2 ^ s.retry_count) cap
unfolding backoff_ms
backoff_ms_lem s base cap h =
    ap (λ t. min (saturating_mul base t) cap) (multiplier_lem s.retry_count)
    ∙ capped base (2 ^ s.retry_count) cap h
