-- ===== src/Capability.antt =====
-- crates/capability-graph: definitions, their resolution, and scopes with what they publish.
pub mod Definition
pub mod Generation
pub mod Resolver
pub mod Entry
pub mod Scope
pub mod Checks
pub mod Publish
pub mod Teardown
pub mod Tests
