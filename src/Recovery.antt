-- ===== src/Recovery.antt =====
-- crates/workflow-recovery: durable effect facts and the recovery decision.
pub mod Model
pub mod Journal
pub mod Decision
pub mod Durable
mod Tests
