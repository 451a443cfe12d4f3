-- ===== src/Txn/Files.antt =====
-- crates/arbordb/src/txn/context/table.rs, as it is built with permissions: the files, and the edit of one
-- scalar in a file.
use arbordb.Common.{
  ℕ, ◌+◌, ◌-◌, List, [], ◌++◌, Option, none, some, ◌==◌, ltb, if◌then◌else◌, Result, ok, err,
  cannot_access, panicked, length, take, drop,
}
use arbordb.Acl.Grades.{Rights}
use arbordb.Codec.Archived.Node.{open_blob, span_at, decode}
use arbordb.Codec.Archived.Write.{encode}
use arbordb.Data.Scalar.{Chrono, Scalar}
use arbordb.Data.Scalar
use arbordb.Data.Utf8.{Text}
use arbordb.Engine.Entry.{EntryKind, entry_split, file_entry}
use arbordb.Key.{AKey}
use arbordb.Path.Access.{APath}
use arbordb.Path.Segment.{VPath}
use arbordb.Txn.Context.{
  Engine, Action, ◌>>=◌, ◌>>◌, pure, lift, generate, put_entry, put_file_edit,
}
use arbordb.Txn.Reads.{read_verified, child, kind, check, check_deletable, resolve}
use arbordb.Txn.Tree.{split_or_panic, ensure_dir, cascade_delete, link_child}
use arbordb.Value.Set.{set_value}
use arbordb.Value.Tree.{Value, leaf}

-- `entry[start..start + encoded.len()].copy_from_slice(&encoded)`
unfoldable pub overwrite : ℕ → List ℕ → List ℕ → Result (List ℕ)
overwrite start encoded entry =
    if ltb (length entry) (start + length encoded)
    then err panicked
    else ok (take start entry ++ (encoded ++ drop (start + length encoded) entry))

-- `patch_scalar`, which returns the changed entry where it patches.
unfoldable pub patch_at : List ℕ → ℕ → List ℕ → Option (ℕ × ℕ) → Result (Option (List ℕ))
patch_at entry header encoded none = ok none
patch_at entry header encoded (some (scalar_off, current_len)) =
    if length encoded == current_len
    then elim (overwrite (header + scalar_off) encoded entry) [
      | err e ↦ err e
      | ok patched ↦ ok (some patched)
    ]
    else ok none

module _ (chrono : Chrono) where
  unfoldable pub patch_scalar : List ℕ → VPath → Scalar → Result (Option (List ℕ))
  patch_scalar entry at scalar = elim (entry_split entry) [
    | err e ↦ err e
    | ok (EntryKind.dir, payload) ↦ ok none
    | ok (EntryKind.file, payload) ↦ elim (open_blob payload) [
      | err e ↦ err e
      | ok view ↦ elim (span_at chrono view at) [
        | err e ↦ err e
        | ok span ↦ patch_at entry (length entry - length payload) (Scalar.encode scalar []) span
      ]
    ]
  ]

  -- The slow path: the value is decoded, changed and encoded again.
  unfoldable pub rewrite_scalar : List ℕ → VPath → Scalar → Result (List ℕ)
  rewrite_scalar entry at scalar = elim (entry_split entry) [
    | err e ↦ err e
    | ok (EntryKind.dir, payload) ↦ err cannot_access
    | ok (EntryKind.file, payload) ↦ elim (decode chrono payload) [
      | err e ↦ err e
      | ok value ↦ ok (file_entry (encode (set_value value at (leaf scalar)).0))
    ]
  ]

module _ {g : Engine} where
  -- A new file takes the place of a directory and all that is in it.
  unfoldable pub replace_dir : ℕ → AKey → Text → AKey → Action g AKey
  replace_dir depth parent name node = do
    check_deletable depth node
    check parent Rights.modify
    cascade_delete depth node
    fresh ← generate
    link_child parent name fresh
    pure fresh

  -- The a-node that `store_blob_into` writes to: the file that is there, or a new one.
  unfoldable pub target_of : ℕ → AKey → Text → Action g AKey
  target_of depth parent name = do
    found ← child parent name
    elim found [
      | none ↦ do
        check parent Rights.modify
        fresh ← generate
        link_child parent name fresh
        pure fresh
      | some node ↦ do
        held ← kind node
        elim held [
          | some EntryKind.file ↦ do check node Rights.modify; pure node
          | some EntryKind.dir ↦ replace_dir depth parent name node
          | none ↦ replace_dir depth parent name node
        ]
    ]

  unfoldable pub store_blob_into : ℕ → APath → List ℕ → Action g (Unit {0})
  store_blob_into depth path value_blob = do
    parts ← split_or_panic path
    parent ← ensure_dir parts.0
    check parent Rights.access
    akey ← target_of depth parent parts.1
    put_entry akey (file_entry value_blob)

  unfoldable pub store_value_into : ℕ → APath → Value → Action g (Unit {0})
  store_value_into depth path value = store_blob_into depth path (encode value)

  -- `resolve_target`, which ignores the hint in this build.
  unfoldable pub resolve_and_read : APath → Action g (Option AKey × Option (List ℕ))
  resolve_and_read path = do
    akey ← resolve path
    elim akey [
      | none ↦ pure (none, none)
      | some k ↦ do entry ← read_verified k; pure (some k, entry)
    ]

  -- The edit of a file that is there.
  unfoldable pub edit_scalar : Chrono → AKey → List ℕ → VPath → Scalar → Action g (Unit {0})
  edit_scalar chrono akey entry at scalar = do
    check akey Rights.modify
    patched ← lift (patch_scalar chrono entry at scalar)
    elim patched [
      | some changed ↦ put_file_edit akey changed
      | none ↦ do changed ← lift (rewrite_scalar chrono entry at scalar); put_file_edit akey changed
    ]

  unfoldable pub put_scalar_into : Chrono → ℕ → APath → VPath → Scalar → Action g (Unit {0})
  put_scalar_into chrono depth path at scalar = do
    (akey, entry) ← resolve_and_read path
    elim akey [
      | none ↦ store_value_into depth path (set_value (leaf Scalar.null) at (leaf scalar)).0
      | some k ↦ elim entry [
        | none ↦ store_value_into depth path (set_value (leaf Scalar.null) at (leaf scalar)).0
        | some held ↦ edit_scalar chrono k held at scalar
      ]
    ]
