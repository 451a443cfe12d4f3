-- ===== src/Value/Tree.antt =====
-- The type `Value`, the operations of `BTreeMap` that the code uses on it, and its well-formedness.
use arbordb.Common.{ℕ, zero, suc, ◌≡◌, Option, none, some, Ordering}
use arbordb.Common.Lex.{lex}
use arbordb.Data.Utf8.{Text, IsUtf8}
use arbordb.Data.Scalar.{Chrono, Scalar}
use arbordb.Data.Scalar

mutual
  pub data Value : Type 0 where
    leaf : Scalar → Value
    list : Items → Value
    node : Entries → Value

  pub data Items : Type 0 where
    nil : Items
    cons : Value → Items → Items

  pub data Entries : Type 0 where
    end : Entries
    entry : Text → Value → Entries → Entries

abbrev pub count_items : Items → ℕ
count_items nil = 0
count_items (cons x xs) = suc (count_items xs)

abbrev pub count_entries : Entries → ℕ
count_entries end = 0
count_entries (entry k v es) = suc (count_entries es)

-- `BTreeMap::insert`, which replaces the value of a key that is there.
unfoldable pub insert : Text → Value → Entries → Entries
insert k v end = entry k v end
insert k v (entry j w es) =
    let rest = insert k v es in
    elim (lex k j) [
      | Ordering.lt ↦ entry k v (entry j w es)
      | Ordering.eq ↦ entry k v es
      | Ordering.gt ↦ entry j w rest
    ]

-- `BTreeMap::get`
unfoldable pub lookup : Text → Entries → Option Value
lookup k end = none
lookup k (entry j w es) =
    let rest = lookup k es in
    elim (lex k j) [ Ordering.lt ↦ none | Ordering.eq ↦ some w | Ordering.gt ↦ rest ]

-- `Vec::get`
abbrev pub get_item : Items → ℕ → Option Value
get_item nil i = none
get_item (cons x xs) zero = some x
get_item (cons x xs) (suc i) = get_item xs i

-- Every name is above the given one.
abbrev pub Above : Text → Entries → Type 0
Above k end = Unit
Above k (entry j w es) = lex k j ≡ Ordering.lt

-- A value that Rust's types can hold: map keys in strict order, names in UTF-8, scalars in range.
abbrev mutual
  pub IsValid : Chrono → Value → Type 0
  IsValid chrono (leaf s) = Scalar.IsValid chrono s
  IsValid chrono (list xs) = AllValid chrono xs
  IsValid chrono (node es) = EntriesValid chrono es

  pub AllValid : Chrono → Items → Type 0
  AllValid chrono nil = Unit
  AllValid chrono (cons x xs) = IsValid chrono x × AllValid chrono xs

  pub EntriesValid : Chrono → Entries → Type 0
  EntriesValid chrono end = Unit
  EntriesValid chrono (entry k v es) =
      IsUtf8 k × IsValid chrono v × Above k es × EntriesValid chrono es
