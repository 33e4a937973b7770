-- ===== src/Lib.antt =====
-- A model of the core of fips-native's mesh node (the Rust crate under fips/), with its theorems.
--
-- A FIPS node keeps a place in a spanning tree of nodes, speaks encrypted links to its peers, and
-- routes datagrams along the tree. The parts modelled here are those that decide what a node
-- accepts, says and chooses; sockets, timers and the event loop around them are not.
--
-- Base and Codec are shared. Base has the Boolean tests, lists with native lengths, maps as
-- association lists (Rust's HashMap, the order of the list being the unspecified order of
-- iteration) and the laws of single bits of a word. Codec has byte strings, the errors of
-- fips/src/protocol/error.rs, a reader over the bytes that are left whose result can also be a
-- panic (an index out of range), and the reasoning that a guarded reader never panics. A number of
-- w bits is a natural number, with `% 2 ^ w` where the source's arithmetic or cast wraps; a
-- 16-byte node address is the number that its bytes write in big-endian order, so that the order
-- of addresses is that of numbers.
--
-- Noise models fips/src/noise:
--   Noise/Replay is replay.rs: `ReplayWindow` with `check`, `accept`, `shift_bitmap`, `reset`, word
--     by word; the loops are recursive functions of their own. Replay/Words, Carry and Shift have the
--     shift bit by bit, over the row of bits of Replay/Bitmap, Replay/Mark the setting of one bit,
--     and Replay/Window the abstract view, a list of the counters accepted.
--   Noise/Cipher is `CipherState` of mod.rs; the AEAD crate is a parameter, a record of three
--     functions, with what its documentation promises as hypotheses.
--   Noise/Session is `NoiseSession` of session.rs; Session/Delivery runs it on sequences of packets.
--   Noise/Handshake is handshake.rs: the symmetric state and the constructors, with the messages of
--     IK in Handshake/Messages and those of XK in Handshake/Xk; every operation gives its result and
--     the state it leaves. The crates (keys and exchanges, SHA-256, HKDF, the AEAD) are a record of
--     functions with their documented laws; a random ephemeral key is an argument. The two modules
--     Agreement run both sides of a handshake against each other.
--
-- Tree models fips/src/tree:
--   Tree/Coordinate is coordinate.rs, with distances in Coordinate/Distance.
--   Tree/Declaration is declaration.rs, over an abstract signature scheme.
--   Tree/State is state.rs: the fields of `TreeState` and its operations, with each reading of a
--     clock as an argument; State/Routing has `find_next_hop`, State/Parent `evaluate_parent` and
--     `handle_parent_lost` over an abstract `f64`, State/Choice and State/Updates their theorems,
--     State/Steps the runs of a state as a step relation with one constructor for each operation.
--
-- Cache models fips/src/cache: Cache/Entry is entry.rs and Cache/CoordCache coord_cache.rs; the
-- source's `insert`, `get` and `remove` of a cache are `insert_coords`, `lookup`, `remove_entry`.
--
-- Bloom models fips/src/bloom: Bloom/Filter is filter.rs over any digest in place of SHA-256, with
-- its bits as one row in Filter/Bits, and Bloom/State state.rs. An index out of range is `none`.
--
-- Utils models fips/src/utils/index.rs; the random numbers are a stream, Index/Held a step relation of
-- the allocator beside the indices that sessions hold.
--
-- Peer models fips/src/peer/active.rs: the sessions of `ActivePeer` and, in Active/Rekey, their
-- rotation, over any types of sessions and handshakes.
--
-- Node models parts of fips/src/node: RoutingErrorRateLimit and DiscoveryRateLimit the files of these
-- names, with the clock as an argument; Wire and SessionWire the packet headers of wire.rs and
-- session_wire.rs; EncryptedFrame, on top of Peer, Wire and Noise/Session, the way of a link message
-- from one node's send_encrypted_link_message_with_ce to the other's handle_encrypted_frame. What
-- the latter calls behind the decryption is a value of the type `Handled`. Retry is retry.rs over the
-- types of Config, which has those of fips/src/config that it reads; `from_npub` is a parameter, and
-- whether initiate_peer_connection succeeds is an argument. Retry/Backoff has the delays, Retry/Kept
-- runs of failures, Retry/Settled one round of retries, and Retry/Steps the runs of a node.
--
-- Protocol models fips/src/protocol and fips/src/mmp/report.rs, one file for each message: a record
-- of the source's fields, `encode` and `decode`. Coords is the coordinate format that session.rs
-- shares, Handshake the length-prefixed payload and the prefix of the handshake messages.
--
-- Tests applies the theorems to concrete inputs.
--
-- All loops are over lists or counted down, so no fuel is used. Not modelled: the token
-- bucket (its tokens are an f64), metrics, peer connections and the other handlers of the node;
-- transports, the reading of the configuration, the control socket, TUN and DNS and the desktop
-- application, which are I/O; and the cryptographic crates, which are parameters.
pub mod Base
pub mod Codec
pub mod Config
pub mod Noise
pub mod Tree
pub mod Cache
pub mod Bloom
pub mod Utils
pub mod Peer
pub mod Node
pub mod Protocol
mod Tests
