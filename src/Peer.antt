-- ===== src/Peer.antt =====
-- fips/src/peer: the peers of a node.
pub mod Active
