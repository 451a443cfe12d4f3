-- ===== src/Data.antt =====
-- crates/arbordb/src/data: the scalars that a value's leaves hold.
pub mod Utf8
pub mod Scalar
