-- ===== src/Index.antt =====
-- crates/arbordb/src/index: secondary indexes.
pub mod Ordered
pub mod Definitions
pub mod Columns
pub mod Key
pub mod Scan
pub mod Pattern
pub mod Maintenance
