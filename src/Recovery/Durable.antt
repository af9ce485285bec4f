-- ===== src/Recovery/Durable.antt =====
-- workflow-recovery/src/durable.rs: the durable store and what it keeps.
pub mod Facts
pub mod State
pub mod Mutation
pub mod Store
pub mod Accepted
pub mod Refusals
pub mod Commits
pub mod Replays
pub mod Runs
pub mod Cancellation
pub mod Lineage
pub mod Rebuild
pub mod Agreement
pub mod Restart
mod Tests
