-- ===== src/Node/RoutingErrorRateLimit.antt =====
-- fips/src/node/routing_error_rate_limit.rs: `RoutingErrorRateLimiter`. The clock is an argument,
-- in milliseconds; `duration_since` of a later instant is zero.
pub mod Laws
use fips_native.Base.{
  ℕ, ◌-◌, List, [], ◌∷◌, Bool, true, false, Option, none, some, ltb, if◌then◌else◌,
}
use fips_native.Base.Map.{Map, get, insert, retain}

pub record RoutingErrorRateLimiter : Type 0 where
  pub last_sent : Map ℕ
  pub min_interval : ℕ
  pub max_age : ℕ

abbrev pub with_interval : ℕ → RoutingErrorRateLimiter
with_interval min_interval = record { last_sent = []; min_interval = min_interval; max_age = 10000 }

unfoldable pub new : RoutingErrorRateLimiter
new = with_interval 100

-- `last_sent` has the destination, less than the interval ago.
abbrev pub too_soon : RoutingErrorRateLimiter → ℕ → ℕ → Bool
too_soon l dest_addr now = elim (get l.last_sent dest_addr) [
  | none ↦ false
  | some last ↦ ltb (now - last) l.min_interval
]

abbrev pub cleanup : RoutingErrorRateLimiter → ℕ → RoutingErrorRateLimiter
cleanup l now = record l { last_sent = retain (λ k last. ltb (now - last) l.max_age) l.last_sent }

unfoldable pub should_send : RoutingErrorRateLimiter → ℕ → ℕ → Bool × RoutingErrorRateLimiter
should_send l dest_addr now =
    if too_soon l dest_addr now
    then (false, l)
    else (true, cleanup (record l { last_sent = insert l.last_sent dest_addr now }) now)
