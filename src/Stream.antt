-- ===== src/Stream.antt =====
-- crates/execution-stream/src/lib.rs: sequenced items, continuity tracking, bounded buffers.
pub mod Item
pub mod Sequencer
pub mod Tracker
pub mod Delivery
pub mod Buffers
mod Tests
