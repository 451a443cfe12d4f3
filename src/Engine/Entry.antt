-- ===== src/Engine/Entry.antt =====
-- crates/arbordb/src/engine/entry.rs: the entry of an a-node is a directory's or a file's blob behind a
-- tag; and `child_of` and `fetch_entry_kind` of engine/functions.rs on what a table holds.
use arbordb.Common.{
  ℕ, List, [], ◌∷◌, Option, none, some, ◌==◌, if◌then◌else◌, Result, ok, err, corrupt,
  cannot_access, ◌>>=◌,
}
use arbordb.Codec.Dir
use arbordb.Codec.Dir.{Children}
use arbordb.Txn.Children.{values, collect}
use arbordb.Data.Utf8.{Text}
use arbordb.Key.{AKey}

pub data EntryKind : Type 0 where
  dir : EntryKind
  file : EntryKind

pub record Entry : Type 0 where
  pub name : Text
  pub kind : EntryKind

abbrev pub dir_tag : ℕ
dir_tag = 0

abbrev pub file_tag : ℕ
file_tag = 1

unfoldable pub dir_entry : List ℕ → List ℕ
dir_entry dir_blob = dir_tag ∷ dir_blob

unfoldable pub file_entry : List ℕ → List ℕ
file_entry value_blob = file_tag ∷ value_blob

unfoldable pub get_entry_kind : List ℕ → Result EntryKind
get_entry_kind [] = err corrupt
get_entry_kind (tag ∷ payload) =
    if tag == dir_tag
    then ok EntryKind.dir
    else if tag == file_tag
    then ok EntryKind.file
    else err corrupt

unfoldable pub entry_split : List ℕ → Result (EntryKind × List ℕ)
entry_split [] = err corrupt
entry_split (tag ∷ payload) =
    if tag == dir_tag
    then ok (EntryKind.dir, payload)
    else if tag == file_tag
    then ok (EntryKind.file, payload)
    else err corrupt

unfoldable pub fetch_entry_kind : Option (List ℕ) → Result (Option EntryKind)
unfolding get_entry_kind
fetch_entry_kind none = ok none
fetch_entry_kind (some entry) = do kind ← get_entry_kind entry; ok (some kind)

-- The child of a directory's entry under a name; a file has none.
unfoldable pub child_in : List ℕ → Text → Result (Option AKey)
unfolding entry_split Dir.new Dir.get
child_in entry name = do
  split ← entry_split entry
  elim split.0 [
    | EntryKind.file ↦ ok none
    | EntryKind.dir ↦ do blob ← Dir.new split.1; Dir.get blob name
  ]

unfoldable pub child_of : Option (List ℕ) → Text → Result (Option AKey)
unfolding child_in
child_of none name = ok none
child_of (some entry) name = child_in entry name

-- `entry_split(entry)?.0`
unfoldable pub kind_of : List ℕ → Result EntryKind
unfolding entry_split
kind_of entry = do split ← entry_split entry; ok split.0

-- What `Context::dir_children` reads in an entry.
unfoldable pub children_in : List ℕ → Result Children
unfolding entry_split Dir.new Dir.entries collect
children_in entry = do
  split ← entry_split entry
  elim split.0 [
    | EntryKind.file ↦ err cannot_access
    | EntryKind.dir ↦ do blob ← Dir.new split.1; pairs ← Dir.entries blob; ok (collect pairs)
  ]

-- What `Context::cascade_children` reads in an entry.
unfoldable pub keys_in : List ℕ → Result (List AKey)
unfolding entry_split Dir.new Dir.entries values
keys_in entry = do
  split ← entry_split entry
  elim split.0 [
    | EntryKind.file ↦ ok []
    | EntryKind.dir ↦ do blob ← Dir.new split.1; children ← Dir.entries blob; ok (values children)
  ]

-- `Result::map(Some)`
abbrev pub map_some {ℓ} : {A : Type ℓ} → Result A → Result (Option A)
map_some (err e) = err e
map_some (ok a) = ok (some a)
