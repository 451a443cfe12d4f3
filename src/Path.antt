-- ===== src/Path.antt =====
-- crates/arbordb/src/path: access paths and value paths.
pub mod Segment
pub mod Access
