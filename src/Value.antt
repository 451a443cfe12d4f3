-- ===== src/Value.antt =====
-- crates/arbordb/src/value.rs: the tree that ArborDb stores. A `BTreeMap` is its entries in the order
-- of their names.
pub mod Tree
pub mod Depth
pub mod Access
pub mod Keys
pub mod Inserts
pub mod Set
pub mod Edit
