-- ===== src/Transport.antt =====
-- crates/nf-transport: what the sequencer takes from the replay transport.
pub mod Index
pub mod Publish
pub mod Examples
