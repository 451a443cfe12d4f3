-- ===== src/Perm.antt =====
-- crates/arbordb/src/perm: who may use a protected database.
pub mod Store
pub mod Authorize
pub mod Integrity
pub mod Admin
