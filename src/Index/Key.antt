-- ===== src/Index/Key.antt =====
-- crates/arbordb/src/index/key.rs: the physical key of an index entry.
use arbordb.Common.{ℕ, List, ◌++◌, Option, none, some}
use arbordb.Common.Be.{be}
use arbordb.Key.{AKey, into_bytes}

abbrev pub IndexId : Type 0
IndexId = ℕ

unfoldable pub id_prefix : IndexId → List ℕ
id_prefix id = be 4 id

unfoldable pub entry_key : IndexId → List ℕ → Option AKey → List ℕ
unfolding id_prefix
entry_key id cols none = id_prefix id ++ cols
entry_key id cols (some akey) = (id_prefix id ++ cols) ++ into_bytes akey
