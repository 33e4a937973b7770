-- ===== src/Protocol.antt =====
-- fips/src/protocol: the messages of the link layer and of the session layer.
pub mod LinkMessage
pub mod SessionMessage
pub mod DisconnectReason
pub mod Disconnect
pub mod Datagram
pub mod SenderReport
pub mod ReceiverReport
pub mod SessionSenderReport
pub mod SessionReceiverReport
pub mod PathMtu
pub mod CoordsRequired
pub mod MtuExceeded
pub mod Coords
pub mod SessionFlags
pub mod FspFlags
pub mod FspInnerFlags
pub mod Handshake
pub mod SessionSetup
pub mod SessionAck
pub mod SessionMsg3
pub mod PathBroken
pub mod LookupRequest
pub mod LookupResponse
pub mod TreeAnnounce
pub mod FilterAnnounce
