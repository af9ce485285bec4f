-- ===== src/Runtime/Durability.antt =====
-- That the runtime's journal and its cancelled tasks are those of its store.
pub mod Recorded
pub mod Commits
pub mod Persists
pub mod Sound
pub mod Follows
pub mod Calm
pub mod Endings
pub mod Finishing
pub mod Refusals
pub mod Capture
pub mod Readmission
pub mod Built
pub mod Attempts
pub mod Effects
pub mod Dispatch
pub mod Recovery
pub mod Cancelling
pub mod Scheduling
pub mod Completing
pub mod Ensuring
pub mod TaskSteps
pub mod Steps
pub mod Rounds
pub mod Rebuilt
pub mod Restart
pub mod Reachable
pub mod Tests
