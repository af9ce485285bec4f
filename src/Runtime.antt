-- ===== src/Runtime.antt =====
-- crates/runtime-core/src/lib.rs: the coordinator of workflow, journal, store and streams.
pub mod Config
pub mod State
pub mod Action
pub mod Commit
pub mod Pins
pub mod Attempts
pub mod Events
pub mod Effects
pub mod Step
pub mod Start
pub mod Delivery
pub mod Durability
pub mod Tests
