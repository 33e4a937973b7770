-- ===== src/Bloom.antt =====
-- fips/src/bloom: which destinations are reachable through which peer.
pub mod Filter
pub mod State
