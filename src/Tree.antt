-- ===== src/Tree.antt =====
-- fips/src/tree: the spanning tree.
pub mod Coordinate
pub mod Declaration
pub mod State
