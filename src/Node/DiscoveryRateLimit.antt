-- ===== src/Node/DiscoveryRateLimit.antt =====
-- fips/src/node/discovery_rate_limit.rs: `DiscoveryBackoff`, in seconds, and
-- `DiscoveryForwardRateLimiter`, in milliseconds. The clock is an argument and has no last instant.
pub mod Backoff
pub mod Forward
use fips_native.Base.{
  ℕ, ◌+◌, ◌-◌, ◌*◌, ◌%◌, ◌^◌, min, List, [], ◌∷◌, Bool, true, false, Option, none, some, ltb,
  if◌then◌else◌, length,
}
use fips_native.Base.Map.{Map, get, insert, remove, retain}

pub record BackoffEntry : Type 0 where
  pub suppress_until : ℕ
  pub failures : ℕ

pub record DiscoveryBackoff : Type 0 where
  pub entries : Map BackoffEntry
  pub base : ℕ
  pub max_secs : ℕ

abbrev pub with_params : ℕ → ℕ → DiscoveryBackoff
with_params base_secs max_secs = record { entries = []; base = base_secs; max_secs = max_secs }

unfoldable pub new : DiscoveryBackoff
new = with_params 30 300

unfoldable pub is_suppressed : DiscoveryBackoff → ℕ → ℕ → Bool
is_suppressed b target now = elim (get b.entries target) [
  | none ↦ false
  | some entry ↦ ltb now entry.suppress_until
]

unfoldable pub failure_count : DiscoveryBackoff → ℕ → ℕ
failure_count b target = elim (get b.entries target) [ none ↦ 0 | some entry ↦ entry.failures ]

-- `saturating_mul` in a u64 and `saturating_pow` in a u64.
abbrev pub saturating_mul : ℕ → ℕ → ℕ
saturating_mul a b = min (a * b) (2 ^ 64 - 1)

abbrev pub saturating_pow : ℕ → ℕ → ℕ
saturating_pow a n = min (a ^ n) (2 ^ 64 - 1)

abbrev pub backoff_secs : DiscoveryBackoff → ℕ → ℕ
backoff_secs b failures = min (saturating_mul b.base (saturating_pow 2 (failures - 1))) b.max_secs

unfoldable pub record_failure : DiscoveryBackoff → ℕ → ℕ → DiscoveryBackoff
unfolding failure_count
record_failure b target now =
    let failures = (failure_count b target + 1) % 2 ^ 32 in
    let entry : BackoffEntry = record {
      suppress_until = now + backoff_secs b failures;
      failures = failures;
    } in
    record b { entries = insert b.entries target entry }

abbrev pub record_success : DiscoveryBackoff → ℕ → DiscoveryBackoff
record_success b target = record b { entries = remove b.entries target }

abbrev pub reset_all : DiscoveryBackoff → DiscoveryBackoff
reset_all b = record b { entries = [] }

abbrev is_empty : DiscoveryBackoff → Bool
is_empty b = elim b.entries [ [] ↦ true | e ∷ m ↦ false ]

abbrev entry_count : DiscoveryBackoff → ℕ
entry_count b = length b.entries

pub record DiscoveryForwardRateLimiter : Type 0 where
  pub last_forwarded : Map ℕ
  pub min_interval : ℕ
  pub max_age : ℕ

abbrev pub with_interval : ℕ → DiscoveryForwardRateLimiter
with_interval interval = record { last_forwarded = []; min_interval = interval; max_age = 60000 }

unfoldable pub new_forward : DiscoveryForwardRateLimiter
new_forward = with_interval 2000

abbrev pub too_soon : DiscoveryForwardRateLimiter → ℕ → ℕ → Bool
too_soon l target now = elim (get l.last_forwarded target) [
  | none ↦ false
  | some last ↦ ltb (now - last) l.min_interval
]

abbrev pub cleanup : DiscoveryForwardRateLimiter → ℕ → DiscoveryForwardRateLimiter
cleanup l now = record l {
  last_forwarded = retain (λ k last. ltb (now - last) l.max_age) l.last_forwarded;
}

unfoldable pub should_forward :
    DiscoveryForwardRateLimiter → ℕ → ℕ → Bool × DiscoveryForwardRateLimiter
should_forward l target now =
    if too_soon l target now
    then (false, l)
    else (true, cleanup (record l { last_forwarded = insert l.last_forwarded target now }) now)
