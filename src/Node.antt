-- ===== src/Node.antt =====
-- fips/src/node: the limits on errors and lookups, and the headers of packets.
pub mod RoutingErrorRateLimit
pub mod DiscoveryRateLimit
pub mod Wire
pub mod SessionWire
pub mod EncryptedFrame
pub mod Retry
