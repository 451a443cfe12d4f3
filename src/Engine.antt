-- ===== src/Engine.antt =====
-- crates/arbordb/src/engine: what stands under the key of an a-node, and what a database requires.
pub mod Entry
pub mod Features
