-- ===== src/Node/DiscoveryRateLimit/Backoff.antt =====
-- fips/src/node/discovery_rate_limit.rs: the backoff after failed lookups doubles up to its cap.
use fips_native.Base.{
  ℕ, zero, suc, ◌+◌, ◌-◌, ◌*◌, ◌%◌, ◌^◌, ◌≤◌, ◌<◌, min, ◌≡◌, ◌⊎◌, inl, inr, Bool-cases, refl, ap,
  ◌∙◌, arith, List, [], ◌∷◌, true, some, ltb, ◌==◌, length,
}
use mathlib.Core.Path.{ap₂}
use fips_native.Base.Map.{get, get-insert, get-remove}
use native.Mathlib.Nat.{mul-le-mul_left, mul-le-mul_right}
use fips_native.Node.DiscoveryRateLimit.{
  DiscoveryBackoff, saturating_mul, backoff_secs, is_suppressed, failure_count, record_failure,
  record_success,
}

Nat-cases : (n : ℕ) → (n ≡ 0) ⊎ (1 ≤ n)
Nat-cases zero = inl refl
Nat-cases (suc n) = inr (omega arith)

-- The saturations do not show below the cap.
pub capped :
    (base p cap : ℕ)
    → cap < 2 ^ 64
    → min (saturating_mul base (min p (2 ^ 64 - 1))) cap ≡ min (base * p) cap
capped base p cap h = elim (Bool-cases (ltb p (2 ^ 64))) [
  | inl small ↦ let one : min p (2 ^ 64 - 1) ≡ p = ground arith in rw one (omega arith)
  | inr large ↦ elim (Nat-cases base) [
    | inl none_ ↦ rw none_ (omega arith)
    | inr some_ ↦
        let one : min p (2 ^ 64 - 1) ≡ 2 ^ 64 - 1 = ground arith in
        let p : base * (2 ^ 64 - 1) ≤ base * p = mul-le-mul_left base (ground arith) in
        let q : 1 * (2 ^ 64 - 1) ≤ base * (2 ^ 64 - 1) = mul-le-mul_right (2 ^ 64 - 1) some_ in
        rw one (omega arith)
  ]
]

backoff_secs_lem :
    (b : DiscoveryBackoff) (k : ℕ)
    → b.max_secs < 2 ^ 64
    → backoff_secs b (suc k) ≡ min (b.base * 2 ^ k) b.max_secs
backoff_secs_lem b k h =
    let one : suc k - 1 ≡ k = omega arith in
    rw (backoff_secs, one) (capped b.base (2 ^ k) b.max_secs h)

-- The lookups of `target` fail at these times, the last first.
unfoldable pub fail : DiscoveryBackoff → ℕ → List ℕ → DiscoveryBackoff
fail b target [] = b
fail b target (now ∷ times) = record_failure (fail b target times) target now

found :
    (b : DiscoveryBackoff) (target now : ℕ)
    → let failures = (failure_count b target + 1) % 2 ^ 32 in
      get (record_failure b target now).entries target
      ≡ some (record { suppress_until = now + backoff_secs b failures; failures = failures })
unfolding record_failure failure_count
found b target now =
    let same : (target == target) ≡ true = ground arith in
    get-insert _ target target _ ∙ rw same refl

count-fail :
    (b : DiscoveryBackoff) (target : ℕ) (times : List ℕ)
    → failure_count b target ≡ 0
    → length times < 2 ^ 32
    → failure_count (fail b target times) target ≡ length times
unfolding fail failure_count
count-fail b target [] z h = z
count-fail b target (now ∷ times) z h =
    let ih = count-fail b target times z (omega arith) in
    rw (found (fail b target times) target now, failure_count) (omega (arith, ih))

fail-max_secs :
    (b : DiscoveryBackoff) (target : ℕ) (times : List ℕ)
    → ((fail b target times).base ≡ b.base) × ((fail b target times).max_secs ≡ b.max_secs)
unfolding fail record_failure
fail-max_secs b target [] = (refl, refl)
fail-max_secs b target (now ∷ times) = fail-max_secs b target times

-- After a success and then n failed lookups, at least one and fewer than 2 ^ 32 - 1, a target is
-- suppressed exactly until base * 2 ^ (n - 1) seconds, at most max, after the last failure: the
-- saturating arithmetic never shows if max fits a u64.
pub is_suppressed-fail :
    (b : DiscoveryBackoff) (target now : ℕ) (times : List ℕ) (later : ℕ)
    → b.max_secs < 2 ^ 64
    → length times + 1 < 2 ^ 32
    → is_suppressed (fail (record_success b target) target (now ∷ times)) target later
      ≡ ltb later (now + min (b.base * 2 ^ length times) b.max_secs)
unfolding fail is_suppressed failure_count
is_suppressed-fail b target now times later h l =
    let f : DiscoveryBackoff = fail (record_success b target) target times in
    let same : (target == target) ≡ true = ground arith in
    let fresh : failure_count (record_success b target) target ≡ 0 =
      rw (failure_count, get-remove b.entries target target, same) refl in
    let c : failure_count f target ≡ length times =
      count-fail (record_success b target) target times fresh (omega arith) in
    let n : (failure_count f target + 1) % 2 ^ 32 ≡ suc (length times) = omega (arith, c) in
    let kept = fail-max_secs (record_success b target) target times in
    let secs : backoff_secs f (suc (length times)) ≡ min (f.base * 2 ^ length times) f.max_secs =
      backoff_secs_lem f (length times) (rw (kept.1) h) in
    rw (is_suppressed, found f target now)
      (ap (λ t. ltb later (now + t))
        (ap (backoff_secs f) n ∙ secs ∙ ap₂ (λ x y. min (x * 2 ^ length times) y) kept.0 kept.1))
