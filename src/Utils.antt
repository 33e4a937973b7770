-- ===== src/Utils.antt =====
-- fips/src/utils: the session index allocator.
pub mod Index
