-- ===== src/Noise.antt =====
-- fips/src/noise: the Noise protocol layer.
pub mod Replay
pub mod Cipher
pub mod Session
pub mod Handshake
