-- ===== src/Arbitrator.antt =====
-- crates/nf-arbitrator: the feed arbitrator and sequencer.
pub mod Types
pub mod Counters
pub mod Window
pub mod State
pub mod Sequencer
pub mod Steady
pub mod Batch
pub mod Intent
pub mod Examples
