-- ===== src/Protocol.antt =====
-- src/protocol.c
pub mod Message
pub mod Store
pub mod Load
pub mod Wire
pub mod RoundTrip
pub mod Faults
pub mod Socket
pub mod Reads
pub mod Writes
pub mod Packet
pub mod Transport
