-- ===== src/Protocol.antt =====
-- The wire layers of crates/nf-protocol: MoldUDP64 framing, ITCH 5.0 payloads, and both together.
pub mod Moldudp64
pub mod Itch5
pub mod Packet
pub mod Examples
