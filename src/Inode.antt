-- ===== src/Inode.antt =====
-- crates/arbordb/src/inode: an a-node's metadata, with the `permissions` feature on. `Node` is node.rs
-- and underlying_timestamps.rs, `Functions` functions.rs.
pub mod Node
pub mod RoundTrip
pub mod Functions
