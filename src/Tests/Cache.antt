-- ===== src/Tests/Cache.antt =====
-- A cache with room for one entry.
use fips_native.Base.{◌≡◌, refl, arith, [], ◌∷◌, none, some, ltb, if◌then◌else◌}
use fips_native.Base.Map.{get}
use fips_native.Tree.Coordinate.{TreeCoordinate, addr_only}
use fips_native.Cache.Entry
use fips_native.Cache.CoordCache.{CoordCache, insert_coords, insert_with_ttl, lookup}
use fips_native.Cache.CoordCache.Bounds.{
  IsCoordCache, inserted, Step-IsCoordCache, lookup-insert_with_ttl,
}

abbrev path : TreeCoordinate
path = record { first = addr_only 5; rest = addr_only 1 ∷ [] }

-- It is full.
abbrev full_cache : CoordCache
full_cache = record {
  entries = (7, Entry.new path 10 100) ∷ [];
  max_entries = 1;
  default_ttl_ms = 100;
}

full_cache-IsCoordCache : IsCoordCache full_cache
unfolding get
full_cache-IsCoordCache = record { distinct = (refl, tt); bounded = omega arith }

Step-IsCoordCache_example : IsCoordCache (insert_coords full_cache 5 path 20)
Step-IsCoordCache_example =
    Step-IsCoordCache full_cache (insert_coords full_cache 5 path 20) (omega arith)
      (inserted 5 path 20) full_cache-IsCoordCache

lookup-insert_with_ttl_example :
    lookup (insert_with_ttl full_cache 5 path 20 100) 5 120
    ≡ (if ltb (Entry.saturating_add 20 100) 120 then none else some path)
lookup-insert_with_ttl_example = lookup-insert_with_ttl full_cache 5 path 20 100 120
