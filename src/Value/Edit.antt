-- ===== src/Value/Edit.antt =====
-- The rest of the editing of value.rs: the operations on the root, `merge`, and the removal at a path. A
-- `&mut Value` and the returned `bool` are the pair of the value left behind and whether something went.
pub mod Gone
pub mod Removes
use arbordb.Common.{
  ℕ, zero, suc, List, [], ◌∷◌, Option, none, some, Bool, true, false, ltb, ◌==◌, if◌then◌else◌,
  Ordering,
}
use arbordb.Common.Lex.{lex}
use arbordb.Codec.Archived.Node.{NodeKind, object_kind, list_kind, leaf_kind}
use arbordb.Data.Scalar.{Scalar}
use arbordb.Data.Utf8.{Text}
use arbordb.Path.Segment.{Segment, VPath}
use arbordb.Value.Tree.{
  Value, Items, Entries, nil, cons, end, entry, count_items, count_entries, get_item, lookup,
  insert,
}
use arbordb.Value.Set.{set_item, push}

unfoldable pub node_kind : Value → NodeKind
node_kind (Value.leaf s) = leaf_kind
node_kind (Value.list items) = list_kind
node_kind (Value.node map) = object_kind

unfoldable pub len : Value → ℕ
len (Value.leaf s) = 0
len (Value.list items) = count_items items
len (Value.node map) = count_entries map

unfoldable pub is_empty : Value → Bool
unfolding len
is_empty value = len value == 0

unfoldable pub names : Entries → List Text
names end = []
names (entry name value map) = name ∷ names map

unfoldable pub keys : Value → List Text
unfolding names
keys (Value.leaf s) = []
keys (Value.list items) = []
keys (Value.node map) = names map

unfoldable pub clear : Value → Value
clear (Value.leaf s) = Value.leaf Scalar.null
clear (Value.list items) = Value.list nil
clear (Value.node map) = Value.node end

unfoldable pub push_value : Value → Value → Value
push_value (Value.list items) value = Value.list (push items value)
push_value (Value.leaf s) value = Value.leaf s
push_value (Value.node map) value = Value.node map

unfoldable pub insert_value : Text → Value → Value → Value
insert_value key value (Value.node map) = Value.node (insert key value map)
insert_value key value (Value.leaf s) = Value.leaf s
insert_value key value (Value.list items) = Value.list items

-- `Vec::remove`, which panics when there is no such element.
unfoldable pub remove_item : ℕ → Items → Option Items
remove_item index nil = none
remove_item zero (cons x items) = some items
remove_item (suc index) (cons x items) = elim (remove_item index items) [
  | none ↦ none
  | some left ↦ some (cons x left)
]

-- `remove_at`: none is a panic.
unfoldable pub remove_at : ℕ → Value → Option Value
remove_at index (Value.list items) = elim (remove_item index items) [
  | none ↦ none
  | some left ↦ some (Value.list left)
]
remove_at index (Value.leaf s) = some (Value.leaf s)
remove_at index (Value.node map) = some (Value.node map)

-- `BTreeMap::remove`
unfoldable pub remove : Text → Entries → Entries
remove k end = end
remove k (entry j w map) =
    let rest = remove k map in
    elim (lex k j) [
      | Ordering.lt ↦ entry j w map
      | Ordering.eq ↦ map
      | Ordering.gt ↦ entry j w rest
    ]

unfoldable pub remove_key : Text → Value → Value
remove_key key (Value.node map) = Value.node (remove key map)
remove_key key (Value.leaf s) = Value.leaf s
remove_key key (Value.list items) = Value.list items

-- `Vec::extend`
unfoldable pub extend_items : Items → Items → Items
extend_items items nil = items
extend_items items (cons x more) = extend_items (push items x) more

-- `BTreeMap::extend`
unfoldable pub extend_entries : Entries → Entries → Entries
extend_entries map end = map
extend_entries map (entry k v more) = extend_entries (insert k v map) more

unfoldable pub merge : Value → Value → Value
unfolding extend_items extend_entries
merge (Value.leaf s) with_value = with_value
merge (Value.list items) (Value.list more) = Value.list (extend_items items more)
merge (Value.list items) (Value.leaf s) = Value.list (push items (Value.leaf s))
merge (Value.list items) (Value.node map) = Value.list (push items (Value.node map))
merge (Value.node map) (Value.node more) = Value.node (extend_entries map more)
merge (Value.node map) (Value.leaf s) = Value.leaf s
merge (Value.node map) (Value.list items) = Value.list items

-- `split_last`: the segments before the last, and the last.
unfoldable pub split_last : Segment → List Segment → List Segment × Segment
split_last first [] = ([], first)
split_last first (next ∷ rest) = let found = split_last next rest in (first ∷ found.0, found.1)

-- `descend_mut`, and a change of what it borrows.
unfoldable pub descend_mut : List Segment → (Value → Value × Bool) → Value → Value × Bool
descend_mut [] change current = change current
descend_mut (Segment.name name ∷ rest) change (Value.node map) = elim (lookup name map) [
  | none ↦ (Value.node map, false)
  | some child ↦ (
    Value.node (insert name (descend_mut rest change child).0 map),
    (descend_mut rest change child).1,
  )
]
descend_mut (Segment.index index ∷ rest) change (Value.list items) = elim (get_item items index) [
  | none ↦ (Value.list items, false)
  | some child ↦ (
    Value.list (set_item items index (descend_mut rest change child).0),
    (descend_mut rest change child).1,
  )
]
descend_mut (Segment.name name ∷ rest) change (Value.leaf s) = (Value.leaf s, false)
descend_mut (Segment.name name ∷ rest) change (Value.list items) = (Value.list items, false)
descend_mut (Segment.index index ∷ rest) change (Value.leaf s) = (Value.leaf s, false)
descend_mut (Segment.index index ∷ rest) change (Value.node map) = (Value.node map, false)

-- The `match` on the last segment.
unfoldable pub remove_last : Segment → Value → Value × Bool
unfolding remove remove_item
remove_last (Segment.name name) (Value.node map) = elim (lookup name map) [
  | none ↦ (Value.node (remove name map), false)
  | some gone ↦ (Value.node (remove name map), true)
]
remove_last (Segment.index index) (Value.list items) = elim (remove_item index items) [
  | none ↦ (Value.list items, false)
  | some left ↦ (Value.list left, true)
]
remove_last (Segment.name name) (Value.leaf s) = (Value.leaf s, false)
remove_last (Segment.name name) (Value.list items) = (Value.list items, false)
remove_last (Segment.index index) (Value.leaf s) = (Value.leaf s, false)
remove_last (Segment.index index) (Value.node map) = (Value.node map, false)

unfoldable pub remove_in : Value → List Segment → Value × Bool
unfolding split_last descend_mut remove_last
remove_in target [] = (Value.leaf Scalar.null, true)
remove_in target (first ∷ rest) =
    let found = split_last first rest in descend_mut found.0 (remove_last found.1) target

-- `remove_value`, on a path that has been parsed.
unfoldable pub remove_value : Value → VPath → Value × Bool
unfolding remove_in
remove_value target path = remove_in target path.segments
