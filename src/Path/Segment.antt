-- ===== src/Path/Segment.antt =====
-- crates/arbordb/src/path/segment.rs, and the structure of v_path.rs: a `VPath` is its segments.
use arbordb.Common.{ℕ, List}
use arbordb.Data.Utf8.{Text}

pub data Segment : Type 0 where
  name : Text → Segment
  index : ℕ → Segment

pub record VPath : Type 0 where
  pub segments : List Segment
