-- ===== src/Cache.antt =====
-- fips/src/cache: coordinates of other nodes, for routing without a lookup.
pub mod Entry
pub mod CoordCache
