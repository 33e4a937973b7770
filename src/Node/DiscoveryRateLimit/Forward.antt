-- ===== src/Node/DiscoveryRateLimit/Forward.antt =====
-- fips/src/node/discovery_rate_limit.rs: the limit on forwarded lookups is the one on errors.
use fips_native.Base.{
  ℕ, ◌≤◌, ◌≡◌, refl, ap, ◌∙◌, List, [], ◌∷◌, Bool, true, false, Bool-cases, inl, inr,
}
use fips_native.Base.Map.{insert}
use fips_native.Node.RoutingErrorRateLimit.{RoutingErrorRateLimiter, should_send}
use fips_native.Node.RoutingErrorRateLimit.Laws.{permits, answers, Ascending, answers_from_empty}
use fips_native.Node.DiscoveryRateLimit.{
  DiscoveryForwardRateLimiter, too_soon, cleanup, should_forward, with_interval,
}

abbrev as_error_limiter : DiscoveryForwardRateLimiter → RoutingErrorRateLimiter
as_error_limiter l = record {
  last_sent = l.last_forwarded;
  min_interval = l.min_interval;
  max_age = l.max_age;
}

-- The answers of the limiter to a run of targets and times.
unfoldable pub forwards : DiscoveryForwardRateLimiter → List (ℕ × ℕ) → List Bool
forwards l [] = []
forwards l ((target, now) ∷ calls) =
    let (answer, next) = should_forward l target now in answer ∷ forwards next calls

forwards-answers :
    (l : DiscoveryForwardRateLimiter) (calls : List (ℕ × ℕ))
    → forwards l calls ≡ answers (as_error_limiter l) calls
unfolding forwards answers should_forward should_send
forwards-answers l [] = refl
forwards-answers l ((target, now) ∷ calls) = elim (Bool-cases (too_soon l target now)) [
  | inl stop ↦ rw stop (ap (λ t. false ∷ t) (forwards-answers l calls))
  | inr pass ↦ rw pass (
      ap (λ t. true ∷ t)
        (forwards-answers
          (cleanup (record l { last_forwarded = insert l.last_forwarded target now }) now) calls))
]

-- On a clock that does not run backwards, the limiter of forwarded lookups, which forgets old
-- ones, answers any run of calls like one that forgets none, if its interval is at most a
-- minute.
pub forwards-permits :
    (min_interval now : ℕ) (calls : List (ℕ × ℕ))
    → min_interval ≤ 60000
    → Ascending now calls
    → forwards (with_interval min_interval) calls ≡ permits min_interval [] calls
forwards-permits min_interval now calls h a =
    forwards-answers (with_interval min_interval) calls
    ∙ answers_from_empty (as_error_limiter (with_interval min_interval)) now calls refl h a
