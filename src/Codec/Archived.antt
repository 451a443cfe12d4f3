-- ===== src/Codec/Archived.antt =====
-- crates/arbordb/src/codec/archived.rs: the value blob. `Write` holds the writers, `Node` the reads in
-- place; `Repr` says what it is for a blob to hold a value at an offset.
pub mod Write
pub mod Node
pub mod Repr
pub mod Written
pub mod Objects
pub mod Encode
pub mod Depth
pub mod Reads
pub mod Children
pub mod Converts
pub mod Navigates
pub mod RoundTrip
pub mod Cycle
