-- ===== src/Codec.antt =====
-- The byte layer of crates/arbordb/src/codec.
pub mod Putters
pub mod Read
pub mod Reader
pub mod Search
pub mod Dir
pub mod Archived
