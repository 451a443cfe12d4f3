-- ===== src/Index/Scan.antt =====
-- crates/arbordb/src/index/scan.rs. The range of the engine's table from a lower bound on is the
-- parameter `range`.
pub mod Prefix
use arbordb.Common.{
  ℕ, ◌-◌, List, [], ◌∷◌, ◌++◌, Bool, true, false, not, length, drop, if◌then◌else◌, Result, ok, err,
  ◌>>=◌,
}
use arbordb.Common.Lex.{starts_with}
use arbordb.Key.{AKey, try_from_bytes}
use arbordb.Index.Key.{IndexId, id_prefix}

-- A key and its value.
abbrev pub Item : Type 0
Item = List ℕ × List ℕ

-- The entity is the value of a unique index's entry, and the tail of another's key.
unfoldable pub entity_of : Bool → Item → Result AKey
entity_of true (k, v) = try_from_bytes v
entity_of false (k, v) = try_from_bytes (drop (length k - 16) k)

unfoldable pub scan_items : List ℕ → Bool → List Item → Result (List AKey)
scan_items lower unique [] = ok []
scan_items lower unique ((k, v) ∷ items) =
    let rest = scan_items lower unique items in
    if not (starts_with k lower)
    then ok []
    else do entity ← entity_of unique (k, v); entities ← rest; ok (entity ∷ entities)

module _ (range : List ℕ → List Item) where
  unfoldable pub scan_prefix : IndexId → List ℕ → Bool → Result (List AKey)
  unfolding scan_items
  scan_prefix id cols_prefix unique =
      let lower = id_prefix id ++ cols_prefix in scan_items lower unique (range lower)
