-- ===== src/Txn/Tree.antt =====
-- crates/arbordb/src/txn/context/table.rs, as it is built with permissions: the tree of directories and
-- files. The depth of a recursion over a subtree is bounded by fuel.
use arbordb.Common.{
  ℕ, zero, suc, List, [], ◌∷◌, Option, none, some, Bool, true, false, if◌then◌else◌, Result, ok,
  err, corrupt, cannot_access, value_not_found, panicked, out_of_fuel,
}
use arbordb.Acl.Grades.{Rights}
use arbordb.Codec.Dir.{Children, encode_dir}
use arbordb.Data.Utf8.{Text}
use arbordb.Engine.Entry.{EntryKind, dir_entry}
use arbordb.Key.{AKey, root}
use arbordb.Path.Access.{APath, split_last}
use arbordb.Txn.Buffer.{bump_structure, dir_put, take}
use arbordb.Txn.Children.{insert, remove}
use arbordb.Txn.Context.{
  Engine, Action, ◌>>=◌, ◌>>◌, pure, lift, fail, reads, on_dirs, for_each, generate, put_entry,
  remove_entry,
}
use arbordb.Txn.Reads.{
  read_verified, has_entry, child, kind, dir_children, cascade_children, dir_link, dir_unlink,
  stamp_new_dir_acl, check, check_deletable, resolve,
}

-- `expect` on a path that callers have checked.
abbrev pub split_or_panic : {g : Engine} → APath → Action g (APath × Text)
split_or_panic path = lift (elim (split_last path) [ none ↦ err panicked | some parts ↦ ok parts ])

abbrev pub or_fail {ℓ} : {g : Engine} {A : Type ℓ} → Option A → Result A → Action g A
or_fail none other = lift other
or_fail (some a) other = pure a

module _ {g : Engine} where
  unfoldable pub put_dir : AKey → Children → Action g (Unit {0})
  put_dir akey map = do
    buffering ← reads (λ c. c.dirs.buffering)
    if buffering
        then (stamp_new_dir_acl akey >> on_dirs (dir_put akey map))
        else put_entry akey (dir_entry (encode_dir map))

  unfoldable pub link_child : AKey → Text → AKey → Action g (Unit {0})
  link_child parent name child = do
    on_dirs bump_structure
    buffering ← reads (λ c. c.dirs.buffering)
    if buffering
        then dir_link parent name child
        else (dir_children parent >>= λ map. put_dir parent (insert name child map))

  unfoldable pub unlink_child : AKey → Text → Action g (Unit {0})
  unlink_child parent name = do
    on_dirs bump_structure
    buffering ← reads (λ c. c.dirs.buffering)
    if buffering
        then dir_unlink parent name
        else (dir_children parent >>= λ map. put_dir parent (remove name map))

  unfoldable pub ensure_root : Action g (Unit {0})
  ensure_root = do there ← has_entry root; if there then pure tt else put_dir root []

  -- The loop of `ensure_dir`.
  unfoldable pub ensure_from : AKey → List Text → Action g AKey
  ensure_from akey [] = pure akey
  ensure_from akey (name ∷ names) = do
    check akey Rights.access
    found ← child akey name
    elim found [
      | some next ↦ do
        held ← kind next
        elim held [
          | some EntryKind.dir ↦ ensure_from next names
          | some EntryKind.file ↦ fail cannot_access
          | none ↦ fail cannot_access
        ]
      | none ↦ do
        check akey Rights.modify
        fresh ← generate
        put_dir fresh []
        link_child akey name fresh
        ensure_from fresh names
    ]

  unfoldable pub ensure_dir : APath → Action g AKey
  ensure_dir path = do ensure_root; ensure_from root path.names

  unfoldable pub cascade_delete : ℕ → AKey → Action g (Unit {0})
  cascade_delete zero akey = fail out_of_fuel
  cascade_delete (suc depth) akey = do
    found ← cascade_children akey
    elim found [
      | none ↦ pure tt
      | some children ↦ do for_each (cascade_delete depth) children; remove_entry akey
    ]

  -- The loop of `deep_copy` over the children of a directory.
  unfoldable pub copy_children : (AKey → Action g AKey) → Children → Children → Action g Children
  copy_children copy [] copied = pure copied
  copy_children copy ((name, child) ∷ rest) copied = do
    fresh ← copy child
    copy_children copy rest (insert name fresh copied)

  unfoldable pub deep_copy : ℕ → AKey → Action g AKey
  deep_copy zero akey = fail out_of_fuel
  deep_copy (suc depth) akey = do
    check akey Rights.access
    fresh ← generate
    found ← kind akey
    elim found [
      | none ↦ fail corrupt
      | some EntryKind.file ↦ do
        held ← read_verified akey
        entry ← or_fail held (err corrupt)
        put_entry fresh entry
        pure fresh
      | some EntryKind.dir ↦ do
        children ← dir_children akey
        copied ← copy_children (deep_copy depth) children []
        put_dir fresh copied
        pure fresh
    ]

  -- What `mv_into` and `cp_into` do to an a-node that stands in the way.
  unfoldable pub clear_way : ℕ → AKey → Text → Action g (Unit {0})
  clear_way depth parent name = do
    existing ← child parent name
    elim existing [
      | none ↦ pure tt
      | some akey ↦ do check_deletable depth akey; cascade_delete depth akey
    ]

  unfoldable pub rm_into : ℕ → APath → Action g Bool
  rm_into depth path = do
    parts ← split_or_panic path
    resolved ← resolve parts.0
    elim resolved [
      | none ↦ pure false
      | some parent ↦ do
        check parent Rights.access
        found ← child parent parts.1
        elim found [
          | none ↦ pure false
          | some akey ↦ do
            check_deletable depth akey
            cascade_delete depth akey
            unlink_child parent parts.1
            pure true
        ]
    ]

  unfoldable pub mv_into : ℕ → APath → APath → Action g (Unit {0})
  mv_into depth src dst = do
    src_parts ← split_or_panic src
    dst_parts ← split_or_panic dst
    resolved ← resolve src_parts.0
    src_parent ← or_fail resolved (err value_not_found)
    check src_parent Rights.access
    found ← child src_parent src_parts.1
    akey ← or_fail found (err value_not_found)
    check akey Rights.delete
    dst_parent ← ensure_dir dst_parts.0
    check dst_parent Rights.modify
    clear_way depth dst_parent dst_parts.1
    link_child dst_parent dst_parts.1 akey
    unlink_child src_parent src_parts.1

  unfoldable pub cp_into : ℕ → APath → APath → Action g (Unit {0})
  cp_into depth src dst = do
    dst_parts ← split_or_panic dst
    resolved ← resolve src
    src_akey ← or_fail resolved (err value_not_found)
    dst_parent ← ensure_dir dst_parts.0
    check dst_parent Rights.modify
    clear_way depth dst_parent dst_parts.1
    copy ← deep_copy depth src_akey
    link_child dst_parent dst_parts.1 copy

  unfoldable pub flush_dirs : List (AKey × Children) → Action g (Unit {0})
  flush_dirs [] = pure tt
  flush_dirs ((akey, map) ∷ rest) = do put_entry akey (dir_entry (encode_dir map)); flush_dirs rest

  unfoldable pub flush_files : List (AKey × List ℕ) → Action g (Unit {0})
  flush_files [] = pure tt
  flush_files ((akey, entry) ∷ rest) = do put_entry akey entry; flush_files rest

  unfoldable pub flush_buffered :
      List (AKey × Children) → List (AKey × List ℕ) → Action g (Unit {0})
  flush_buffered dirs files = do flush_dirs dirs; flush_files files

  -- The flush of all that is buffered: at a commit, and before the maintenance of indexes.
  unfoldable pub flush_taken : List (AKey × Children) → List (AKey × List ℕ) → Action g (Unit {0})
  flush_taken [] [] = pure tt
  flush_taken [] (file ∷ files) = flush_buffered [] (file ∷ files)
  flush_taken (dir ∷ dirs) files = flush_buffered (dir ∷ dirs) files

  -- The first part of `WriteTxn::commit`.
  unfoldable pub commit_flush : Action g (Unit {0})
  commit_flush c =
      let (dirs, files, left) = take c.dirs in flush_taken dirs files (record c { dirs = left })
