-- ===== src/Cache/Entry.antt =====
-- fips/src/cache/entry.rs: `CacheEntry`. Times are milliseconds in a `u64`, and its saturating sum
-- stops at the largest one.
use fips_native.Base.{ℕ, ◌+◌, ◌-◌, ◌^◌, min, Bool, Option, none, some, ltb}
use fips_native.Tree.Coordinate.{TreeCoordinate}

pub record CacheEntry : Type 0 where
  pub coords : TreeCoordinate
  pub created_at : ℕ
  pub last_used : ℕ
  pub expires_at : ℕ
  pub path_mtu : Option ℕ

abbrev pub saturating_add : ℕ → ℕ → ℕ
saturating_add a b = min (a + b) (2 ^ 64 - 1)

abbrev pub new : TreeCoordinate → ℕ → ℕ → CacheEntry
new coords now ttl = record {
  coords = coords;
  created_at = now;
  last_used = now;
  expires_at = saturating_add now ttl;
  path_mtu = none;
}

abbrev pub set_path_mtu : ℕ → CacheEntry → CacheEntry
set_path_mtu mtu e = record e { path_mtu = some mtu }

abbrev pub is_expired : CacheEntry → ℕ → Bool
is_expired e now = ltb e.expires_at now

abbrev pub refresh : CacheEntry → ℕ → ℕ → CacheEntry
refresh e now ttl = record e { expires_at = saturating_add now ttl; last_used = now }

abbrev pub update : CacheEntry → TreeCoordinate → ℕ → ℕ → CacheEntry
update e coords now ttl = record e {
  coords = coords;
  last_used = now;
  expires_at = saturating_add now ttl;
}

abbrev pub idle_time : CacheEntry → ℕ → ℕ
idle_time e now = now - e.last_used
