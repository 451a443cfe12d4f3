-- ===== src/Txn.antt =====
-- crates/arbordb/src/txn: the changes of a write transaction.
pub mod Children
pub mod Buffer
pub mod Context
pub mod Reads
pub mod Tree
pub mod Grants
pub mod Files
pub mod Pending
pub mod Write
