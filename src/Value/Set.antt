-- ===== src/Value/Set.antt =====
-- The writing half of value.rs: `set_in` and `build_fresh`. A `&mut Value` and the returned `bool` are
-- the pair of the value left behind and whether the change was made.
pub mod Laws
pub mod Accepts
pub mod Frame
use arbordb.Common.{
  ℕ, zero, suc, List, [], ◌∷◌, Option, none, some, Bool, true, false, ltb, ◌==◌, if◌then◌else◌,
}
use arbordb.Path.Segment.{Segment, VPath}
use arbordb.Value.Tree.{
  Value, Items, Entries, leaf, list, node, nil, cons, end, entry, count_items, get_item, lookup,
  insert,
}

-- `list[index] = …`
abbrev pub set_item : Items → ℕ → Value → Items
set_item nil i x = nil
set_item (cons y ys) zero x = cons x ys
set_item (cons y ys) (suc i) x = cons y (set_item ys i x)

-- `Vec::push`
abbrev pub push : Items → Value → Items
push nil x = cons x nil
push (cons y ys) x = cons y (push ys x)

unfoldable pub build_fresh : List Segment → Value → Option Value
build_fresh [] value = some value
build_fresh (Segment.name name ∷ rest) value = elim (build_fresh rest value) [
  | none ↦ none
  | some subtree ↦ some (node (entry name subtree end))
]
build_fresh (Segment.index zero ∷ rest) value = elim (build_fresh rest value) [
  | none ↦ none
  | some subtree ↦ some (list (cons subtree nil))
]
build_fresh (Segment.index (suc i) ∷ rest) value = none

unfoldable pub set_in : List Segment → Value → Value → Value × Bool
unfolding build_fresh
set_in [] value target = (value, true)
set_in (Segment.name name ∷ rest) value (node map) = elim (lookup name map) [
  | some child ↦ (node (insert name (set_in rest value child).0 map), (set_in rest value child).1)
  | none ↦ elim (build_fresh rest value) [
    | some subtree ↦ (node (insert name subtree map), true)
    | none ↦ (node map, false)
  ]
]
set_in (Segment.index index ∷ rest) value (list items) = elim (get_item items index) [
  | some child ↦
      (list (set_item items index (set_in rest value child).0), (set_in rest value child).1)
  | none ↦
      if index == count_items items
      then elim (build_fresh rest value) [
        | some subtree ↦ (list (push items subtree), true)
        | none ↦ (list items, false)
      ]
      else (list items, false)
]
set_in (Segment.name name ∷ rest) value (leaf s) = (leaf s, false)
set_in (Segment.name name ∷ rest) value (list items) = (list items, false)
set_in (Segment.index index ∷ rest) value (leaf s) = (leaf s, false)
set_in (Segment.index index ∷ rest) value (node map) = (node map, false)

-- `set_value`, on a path that has been parsed.
unfoldable pub set_value : Value → VPath → Value → Value × Bool
unfolding set_in
set_value target path value = set_in path.segments value target
