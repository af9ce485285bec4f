-- ===== src/Workflow.antt =====
-- crates/workflow-graph/src/lib.rs: versioned topology and immutable execution facts.
pub mod Topology
pub mod Facts
pub mod Mutation
pub mod Graph
pub mod Cycles
mod Tests
