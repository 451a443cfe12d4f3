-- ===== src/Index/Maintenance.antt =====
-- crates/arbordb/src/index/maintenance.rs: the index entries that a mutation deletes and inserts. An
-- error leaves the table of index entries as it stood then.
use arbordb.Common.{
  ℕ, List, [], ◌∷◌, Option, none, some, Bool, if◌then◌else◌, Result, ok, err, unique_violation,
  ◌>>=◌,
}
use arbordb.Common.Lex.{lex, is_eq, starts_with}
use arbordb.Codec.Archived.Node.{
  leaf_kind, list_kind, object_kind, open_blob, root, navigate, kind, scalar,
}
use arbordb.Data.Scalar.{Chrono, Scalar}
use arbordb.Engine.Entry.{EntryKind, entry_split}
use arbordb.Index.Definitions.{IndexDef, IndexColumn, encode_columns}
use arbordb.Index.Key.{IndexId, entry_key, id_prefix}
use arbordb.Index.Pattern.{affected_entities}
use arbordb.Index.Pattern
use arbordb.Index.Scan.{Item}
use arbordb.Key.{AKey, into_bytes}
use arbordb.Path.Access.{APath}
use arbordb.Path.Segment.{VPath}
use arbordb.Store.{Store}

-- A row of the registry; the table that it belongs to is the one at hand.
pub record IndexEntry : Type 0 where
  pub id : IndexId
  pub def : IndexDef

module _ (chrono : Chrono) (read : AKey → Option (List ℕ)) where
  -- A column that is no leaf of a file is `Null`.
  unfoldable pub column_scalar : AKey → VPath → Result Scalar
  unfolding entry_split open_blob navigate kind scalar
  column_scalar entity column = elim (read entity) [
    | none ↦ ok Scalar.null
    | some entry ↦ do
      split ← entry_split entry
      elim split.0 [
        | EntryKind.dir ↦ ok Scalar.null
        | EntryKind.file ↦ do
          view ← open_blob split.1
          found ← navigate (root view) column
          elim found [
            | none ↦ ok Scalar.null
            | some node ↦ do
              held ← kind node
              elim held [
                | leaf_kind ↦ scalar chrono node
                | list_kind ↦ ok Scalar.null
                | object_kind ↦ ok Scalar.null
              ]
          ]
      ]
  ]

  unfoldable pub column_values : AKey → List IndexColumn → Result (List Scalar)
  unfolding column_scalar
  column_values entity [] = ok []
  column_values entity (column ∷ columns) = do
    value ← column_scalar entity column.path
    values ← column_values entity columns
    ok (value ∷ values)

  unfoldable pub index_key : IndexId → IndexDef → AKey → Result Item
  unfolding column_values encode_columns entry_key into_bytes
  index_key id def entity = do
    values ← column_values entity def.columns
    let cols = encode_columns def values
    if def.unique
        then ok (entry_key id cols none, into_bytes entity)
        else ok (entry_key id cols (some entity), [])

  unfoldable pub index_keys : IndexId → IndexDef → List AKey → Result (List Item)
  unfolding index_key
  index_keys id def [] = ok []
  index_keys id def (entity ∷ entities) = do
    item ← index_key id def entity
    items ← index_keys id def entities
    ok (item ∷ items)

  unfoldable pub entries_for : IndexEntry → APath → Result (List Item)
  unfolding index_keys Pattern.parse affected_entities
  entries_for entry scope = do
    pattern ← Pattern.parse entry.def.pattern
    entities ← affected_entities read pattern scope
    index_keys entry.id entry.def entities

module _ (store : Store (List ℕ)) where
  unfoldable pub remove_items : List Item → store.Table → store.Table
  remove_items [] index = index
  remove_items ((k, v) ∷ items) index = remove_items items (store.remove k index)

  -- The value under a key is the one that is to be inserted, or there is none.
  unfoldable pub guard_unique : store.Table → List ℕ → List ℕ → Result (Unit {0})
  guard_unique index key value = elim (store.get index key) [
    | none ↦ ok tt
    | some existing ↦ if is_eq (lex existing value) then ok tt else err unique_violation
  ]

  unfoldable pub insert_items : Bool → List Item → store.Table → Result (Unit {0}) × store.Table
  unfolding guard_unique
  insert_items unique [] index = (ok tt, index)
  insert_items unique ((k, v) ∷ items) index =
      let rest = insert_items unique items (store.insert k v index) in
      elim (if unique then guard_unique index k v else ok tt) [
        | err e ↦ (err e, index)
        | ok done ↦ rest
      ]

  module _ (chrono : Chrono) (read : AKey → Option (List ℕ)) (scope : APath) where
    unfoldable pub delete : List IndexEntry → store.Table → Result (Unit {0}) × store.Table
    unfolding entries_for remove_items
    delete [] index = (ok tt, index)
    delete (entry ∷ entries) index = elim (entries_for chrono read entry scope) [
      | err e ↦ (err e, index)
      | ok items ↦ delete entries (remove_items items index)
    ]

    unfoldable pub insert : List IndexEntry → store.Table → Result (Unit {0}) × store.Table
    unfolding entries_for insert_items
    insert [] index = (ok tt, index)
    insert (entry ∷ entries) index = elim (entries_for chrono read entry scope) [
      | err e ↦ (err e, index)
      | ok items ↦
          let (done, changed) = insert_items entry.def.unique items index in
          elim done [ err e ↦ (err e, changed) | ok unit ↦ insert entries changed ]
    ]

  -- The keys of an index, from a range of the table.
  unfoldable pub own_keys : List ℕ → List Item → List (List ℕ)
  unfolding starts_with
  own_keys prefix [] = []
  own_keys prefix ((k, v) ∷ items) =
      let rest = own_keys prefix items in if starts_with k prefix then k ∷ rest else []

  unfoldable pub remove_keys : List (List ℕ) → store.Table → store.Table
  remove_keys [] index = index
  remove_keys (k ∷ ks) index = remove_keys ks (store.remove k index)

  unfoldable pub delete_all :
      (store.Table → List ℕ → List Item) → IndexEntry → store.Table → store.Table
  unfolding own_keys remove_keys id_prefix
  delete_all range entry index =
      remove_keys (own_keys (id_prefix entry.id) (range index (id_prefix entry.id))) index
