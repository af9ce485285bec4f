-- ===== src/Core.antt =====
-- crates/core/src/lib.rs: the primitives that every crate shares.
pub mod Ident
pub mod Revision
pub mod Laws
mod Tests
