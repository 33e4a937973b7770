-- ===== src/Cache/CoordCache.antt =====
-- fips/src/cache/coord_cache.rs: `CoordCache`, a bounded map from addresses to coordinates.
pub mod Bounds
use fips_native.Base.{
  ℕ, ◌+◌, ◌-◌, ◌^◌, List, [], ◌∷◌, Bool, true, false, not, Option, none, some, ltb, leb,
  if◌then◌else◌, length,
}
use fips_native.Base.Map.{Map, get, insert, remove, retain}
use fips_native.Tree.Coordinate.{TreeCoordinate}
use fips_native.Cache.Entry
use fips_native.Cache.Entry.{CacheEntry, set_path_mtu, is_expired, refresh, update, idle_time}

pub record CoordCache : Type 0 where
  pub entries : Map CacheEntry
  pub max_entries : ℕ
  pub default_ttl_ms : ℕ

abbrev pub new : ℕ → ℕ → CoordCache
new max_entries ttl = record { entries = []; max_entries = max_entries; default_ttl_ms = ttl }

-- `find`: the first expired entry of the iteration.
unfoldable pub first_expired : ℕ → Map CacheEntry → Option ℕ
first_expired now [] = none
first_expired now ((k, e) ∷ m) = if is_expired e now then some k else first_expired now m

-- `max_by_key`: the key of the largest idle time, the last one among equals, from the best so far.
unfoldable pub most_idle : ℕ → ℕ → ℕ → Map CacheEntry → ℕ
most_idle now k idle [] = k
most_idle now k idle ((j, e) ∷ m) =
    if leb idle (idle_time e now)
    then most_idle now j (idle_time e now) m
    else most_idle now k idle m

unfoldable pub lru_key : ℕ → Map CacheEntry → Option ℕ
unfolding most_idle
lru_key now [] = none
lru_key now ((k, e) ∷ m) = some (most_idle now k (idle_time e now) m)

unfoldable pub remove_key : Map CacheEntry → Option ℕ → Map CacheEntry
remove_key m none = m
remove_key m (some k) = remove m k

unfoldable pub victim : ℕ → Map CacheEntry → Option ℕ
unfolding first_expired lru_key
victim now m = elim (first_expired now m) [ some k ↦ some k | none ↦ lru_key now m ]

unfoldable pub evict_one : CoordCache → ℕ → CoordCache
unfolding victim remove_key
evict_one c now = record c { entries = remove_key c.entries (victim now c.entries) }

-- What the three ways to insert share; `finish` is what they do to the entry at last.
unfoldable pub insert_entry :
    CoordCache → ℕ → TreeCoordinate → ℕ → ℕ → (CacheEntry → CacheEntry) → CoordCache
unfolding evict_one
insert_entry c addr coords now ttl finish =
    let room = if leb c.max_entries (length c.entries) then evict_one c now else c in
    elim (get c.entries addr) [
      | some e ↦ record c { entries = insert c.entries addr (finish (update e coords now ttl)) }
      | none ↦ record room {
        entries = insert room.entries addr (finish (Entry.new coords now ttl));
      }
    ]

unfoldable pub insert_coords : CoordCache → ℕ → TreeCoordinate → ℕ → CoordCache
unfolding insert_entry
insert_coords c addr coords now = insert_entry c addr coords now c.default_ttl_ms (λ e. e)

unfoldable pub insert_with_path_mtu : CoordCache → ℕ → TreeCoordinate → ℕ → ℕ → CoordCache
unfolding insert_entry
insert_with_path_mtu c addr coords now mtu =
    insert_entry c addr coords now c.default_ttl_ms (set_path_mtu mtu)

unfoldable pub insert_with_ttl : CoordCache → ℕ → TreeCoordinate → ℕ → ℕ → CoordCache
unfolding insert_entry
insert_with_ttl c addr coords now ttl = insert_entry c addr coords now ttl (λ e. e)

unfoldable pub lookup : CoordCache → ℕ → ℕ → Option TreeCoordinate
lookup c addr now = elim (get c.entries addr) [
  | none ↦ none
  | some e ↦ if is_expired e now then none else some e.coords
]

unfoldable pub get_and_touch : CoordCache → ℕ → ℕ → Option TreeCoordinate × CoordCache
get_and_touch c addr now = elim (get c.entries addr) [
  | none ↦ (none, c)
  | some e ↦ if is_expired e now then (none, record c { entries = remove c.entries addr }) else (
    some e.coords,
    record c { entries = insert c.entries addr (refresh e now c.default_ttl_ms) },
  )
]

abbrev pub remove_entry : CoordCache → ℕ → CoordCache
remove_entry c addr = record c { entries = remove c.entries addr }

unfoldable pub purge_expired : CoordCache → ℕ → ℕ × CoordCache
purge_expired c now =
    let kept = retain (λ k e. not (is_expired e now)) c.entries in
    (length c.entries - length kept, record c { entries = kept })

abbrev pub clear : CoordCache → CoordCache
clear c = record c { entries = [] }
