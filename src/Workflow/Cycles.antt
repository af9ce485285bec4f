-- ===== src/Workflow/Cycles.antt =====
-- Walks in the topology, and what the depth-first search of `cycle_path` finds.
pub mod Walks
pub mod Search
pub mod Verdict
