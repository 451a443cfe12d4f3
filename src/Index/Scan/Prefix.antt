-- ===== src/Index/Scan/Prefix.antt =====
-- A prefix scan finds the entries of its prefix, all of them and no others.
use arbordb.Common.{
  ℕ, ◌^◌, ◌≤◌, ◌<◌, ◌≡◌, ◌≢◌, refl, sym, ap, ◌∙◌, List, [], ◌∷◌, ◌++◌, append_assoc, append-nil,
  Bool, false, ◌&&◌, compare, Ordering, length, All, Option, none, some, if◌then◌else◌, Bool-cases,
  inl, inr, arith, Result, ok, ◌>>=◌,
}
use arbordb.Common.Be.{be, verdict-be}
use arbordb.Common.Lex.{
  lex, lex_refl, lex-reverse, lex-le_trans, reverse_cmp, starts_with, starts_with-append,
  starts_with_first, is_eq,
}
use arbordb.Data.Scalar.{Chrono, Scalar, IsValid}
use arbordb.Key.{AKey, into_bytes}
use arbordb.Index.Definitions.{IndexDef, encode_columns}
use arbordb.Index.Columns.{starts_with-encode_columns, matches}
use arbordb.Index.Key.{IndexId, id_prefix, entry_key}
use arbordb.Index.Scan.{Item, entity_of, scan_items, scan_prefix}

-- What the engine documents of a range: its keys ascend, and none is below the bound.
abbrev pub AscendsFrom : List ℕ → List Item → Type 0
AscendsFrom lower [] = Unit
AscendsFrom lower ((k, v) ∷ items) = (lex lower k ≢ Ordering.gt) × AscendsFrom k items

-- The items whose key starts with the bound.
unfoldable pub matching : List ℕ → List Item → List Item
matching lower [] = []
matching lower ((k, v) ∷ items) =
    let rest = matching lower items in if starts_with k lower then (k, v) ∷ rest else rest

-- Their entities, or the first error.
unfoldable pub collect : Bool → List Item → Result (List AKey)
collect unique [] = ok []
collect unique (item ∷ items) = do
  entity ← entity_of unique item
  entities ← collect unique items
  ok (entity ∷ entities)

below_not : (lower k : List ℕ) → lex lower k ≢ Ordering.gt → lex k lower ≢ Ordering.lt
below_not lower k h e = h (lex-reverse k lower ∙ ap reverse_cmp e)

-- Behind a key that does not start with the bound, none does.
matching-none :
    (lower k j : List ℕ) (items : List Item)
    → lex k lower ≢ Ordering.lt
    → starts_with k lower ≡ false
    → lex k j ≢ Ordering.gt
    → AscendsFrom j items
    → matching lower items ≡ []
unfolding matching
matching-none lower k j [] h s le up = refl
matching-none lower k j ((i, v) ∷ items) h s le up =
    let k_le_i = lex-le_trans k j i le up.0 in
    ground
      (arith, starts_with_first lower k i h k_le_i, matching-none lower k i items h s k_le_i up.1)

scan_items-matching :
    (lower from : List ℕ) (unique : Bool) (items : List Item)
    → lex lower from ≢ Ordering.gt
    → AscendsFrom from items
    → scan_items lower unique items ≡ collect unique (matching lower items)
unfolding scan_items collect matching
scan_items-matching lower from unique [] h up = refl
scan_items-matching lower from unique ((k, v) ∷ items) h up =
    let lower_le_k = lex-le_trans lower from k h up.0 in
    elim (Bool-cases (starts_with k lower)) [
      | inl s ↦ rw (s, scan_items-matching lower k unique items lower_le_k up.1)
      | inr s ↦
          rw (s, matching-none lower k k items (below_not lower k lower_le_k) s (le_refl k) up.1)
    ]
  where
    le_refl : (k : List ℕ) → lex k k ≢ Ordering.gt
    le_refl k e = cc (lex_refl k)

-- Over a range that ascends from the bound, stopping at the first other key loses nothing: the scan
-- returns the entities of the items whose key starts with the index and the columns, in order.
pub scan_prefix-matching :
    (range : List ℕ → List Item) (id : IndexId) (cols_prefix : List ℕ) (unique : Bool)
    → AscendsFrom (id_prefix id ++ cols_prefix) (range (id_prefix id ++ cols_prefix))
    → scan_prefix range id cols_prefix unique
      ≡ collect unique
          (matching (id_prefix id ++ cols_prefix) (range (id_prefix id ++ cols_prefix)))
unfolding scan_prefix
scan_prefix-matching range id cols_prefix unique up =
    let lower = id_prefix id ++ cols_prefix in
    scan_items-matching lower lower unique (range lower) (λ e. cc (lex_refl lower)) up

with_tail :
    (chrono : Chrono) (def : IndexDef) (id j : IndexId) (us vs : List Scalar) (tail : List ℕ)
    → id < 2 ^ 32
    → j < 2 ^ 32
    → length us ≤ length def.columns
    → length vs ≡ length def.columns
    → All (IsValid chrono) us
    → All (IsValid chrono) vs
    → starts_with ((be 4 j ++ encode_columns def vs) ++ tail) (be 4 id ++ encode_columns def us)
      ≡ (is_eq (compare j id) && matches us vs)
with_tail chrono def id j us vs tail hi hj lu lv valid_us valid_vs = rw (append_assoc (be 4 j)) (
    starts_with-append (be 4 j) (be 4 id) _ _ (compare j id) (verdict-be 4 j id hj hi)
    ∙ ap (λ b. is_eq (compare j id) && b)
        (starts_with-encode_columns chrono def us vs tail lu lv valid_us valid_vs))

-- The key of an entry, for both kinds of index, starts with the bound of a query exactly when the
-- index is the same and the leading column values are those of the query.
pub starts_with-entry_key :
    (chrono : Chrono) (def : IndexDef) (id j : IndexId) (us vs : List Scalar) (entity : Option AKey)
    → id < 2 ^ 32
    → j < 2 ^ 32
    → length us ≤ length def.columns
    → length vs ≡ length def.columns
    → All (IsValid chrono) us
    → All (IsValid chrono) vs
    → starts_with
        (entry_key j (encode_columns def vs) entity)
        (id_prefix id ++ encode_columns def us)
      ≡ (is_eq (compare j id) && matches us vs)
unfolding entry_key id_prefix
starts_with-entry_key chrono def id j us vs none hi hj lu lv valid_us valid_vs =
    ap (λ k. starts_with k (be 4 id ++ encode_columns def us))
      (sym (append-nil (be 4 j ++ encode_columns def vs)))
    ∙ with_tail chrono def id j us vs [] hi hj lu lv valid_us valid_vs
starts_with-entry_key chrono def id j us vs (some akey) hi hj lu lv valid_us valid_vs =
    with_tail chrono def id j us vs (into_bytes akey) hi hj lu lv valid_us valid_vs
