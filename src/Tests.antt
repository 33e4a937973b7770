-- ===== src/Tests.antt =====
-- Concrete inputs: each theorem of the list in Lib.antt, applied.
mod Noise
mod Tree
mod Cache
mod Protocol
mod Bloom
mod Utils
mod Peer
mod Node
