-- ===== src/Txn/Write.antt =====
-- crates/arbordb/src/txn/write.rs, as it is built with permissions: the operations of a write
-- transaction, each with its guards and the re-indexing around it. The registry of indexes and the names
-- of users and groups, which stand in a table of their own, are arguments.
pub mod Failed
use arbordb.Common.{
  ℕ, List, [], ◌∷◌, Option, none, some, Bool, if◌then◌else◌, Result, ok, err, cannot_access,
}
use arbordb.Acl.{set_group_rights, remove_group}
use arbordb.Acl
use arbordb.Acl.Grades.{Rights}
use arbordb.Data.Utf8.{Text}
use arbordb.Data.Scalar.{Chrono, Scalar}
use arbordb.Index.Maintenance.{IndexEntry, delete, insert}
use arbordb.Key.{AKey}
use arbordb.Path.Access.{APath, is_root, begins_with}
use arbordb.Path.Segment.{VPath}
use arbordb.Store.{Store}
use arbordb.Txn.Buffer.{take_and_disable}
use arbordb.Txn.Context.{Engine, Context, Action, ◌>>=◌, pure}
use arbordb.Txn.Files.{store_blob_into, store_value_into, put_scalar_into}
use arbordb.Txn.Grants.{chown_into, set_acl_into}
use arbordb.Txn.Tree.{ensure_dir, rm_into, mv_into, cp_into, flush_taken}
use arbordb.Value.Tree.{Value}

pub data AclClass : Type 0 where
  user : AclClass
  group : Text → AclClass
  other : AclClass

-- The tables that the transaction has open, with the table of index entries; what one handle fixes.
pub record WriteTxn (g : Engine) (store : Store (List ℕ)) : Type 0 where
  pub context : Context g
  pub index : store.Table

abbrev pub Op {ℓ} : (g : Engine) → Store (List ℕ) → Type ℓ → Type ℓ
Op g store A = WriteTxn g store → Result A × WriteTxn g store

module _ {g : Engine} (store : Store (List ℕ)) (chrono : Chrono) (indexes : List IndexEntry)
    (now : ℕ) where
  -- `Context::new`, for each mutation anew.
  unfoldable pub opened : Context g → Context g
  opened c = record c { now = now; verified = [] }

  unfoldable pub run {ℓ} : {A : Type ℓ} → Action g A → Op g store A
  unfolding opened
  run apply txn = let (r, c) = apply (opened txn.context) in (r, record txn { context = c })

  abbrev data_of : WriteTxn g store → AKey → Option (List ℕ)
  data_of txn = g.data_store.get txn.context.entries

  unfoldable pub delete_scopes : List APath → Op g store (Unit {0})
  delete_scopes [] txn = (ok tt, txn)
  delete_scopes (scope ∷ scopes) txn =
      let (r, index) = delete store chrono (data_of txn) scope indexes txn.index in
      let left : WriteTxn g store = record txn { index = index } in
      elim r [ err e ↦ (err e, left) | ok done ↦ delete_scopes scopes left ]

  unfoldable pub insert_scopes : List APath → Op g store (Unit {0})
  insert_scopes [] txn = (ok tt, txn)
  insert_scopes (scope ∷ scopes) txn =
      let (r, index) = insert store chrono (data_of txn) scope indexes txn.index in
      let left : WriteTxn g store = record txn { index = index } in
      elim r [ err e ↦ (err e, left) | ok done ↦ insert_scopes scopes left ]

  -- What is buffered is written, and no more is buffered.
  unfoldable pub settle : Op g store (Unit {0})
  unfolding run
  settle txn =
      let (dirs, files, left) = take_and_disable txn.context.dirs in
      run (flush_taken dirs files) (record txn { context = record txn.context { dirs = left } })

  -- A mutation between the deletion and the insertion of what it may affect.
  unfoldable pub bracketed {ℓ} : {A : Type ℓ} → List APath → Action g A → Op g store A
  unfolding delete_scopes insert_scopes run
  bracketed scopes apply txn =
      let (r, deleted) = delete_scopes scopes txn in
      elim r [
        | err e ↦ (err e, deleted)
        | ok done ↦
            let (result, changed) = run apply deleted in
            elim result [
              | err e ↦ (err e, changed)
              | ok a ↦
                  let (q, inserted) = insert_scopes scopes changed in
                  elim q [ err e ↦ (err e, inserted) | ok unit ↦ (ok a, inserted) ]
            ]
      ]

  unfoldable pub reindex_around {ℓ} : {A : Type ℓ} → List APath → Action g A → Op g store A
  unfolding run settle bracketed
  reindex_around scopes apply txn = elim indexes [
    | [] ↦ run apply txn
    | entry ∷ entries ↦
        let (r, settled) = settle txn in
        elim r [ err e ↦ (err e, settled) | ok done ↦ bracketed scopes apply settled ]
  ]

  abbrev refused {ℓ} : {A : Type ℓ} → Op g store A
  refused txn = (err cannot_access, txn)

  module _ (fuel : ℕ) where
    unfoldable pub store_value_at : APath → Value → Op g store (Unit {0})
    unfolding reindex_around
    store_value_at path value =
        if is_root path
        then refused
        else reindex_around (path ∷ []) (store_value_into fuel path value)

    unfoldable pub store_blob_at : APath → List ℕ → Op g store (Unit {0})
    unfolding reindex_around
    store_blob_at path value_blob =
        if is_root path
        then refused
        else reindex_around (path ∷ []) (store_blob_into fuel path value_blob)

    unfoldable pub put_scalar_at : APath → VPath → Scalar → Op g store (Unit {0})
    unfolding reindex_around
    put_scalar_at path at scalar =
        reindex_around (path ∷ []) (put_scalar_into chrono fuel path at scalar)

    unfoldable pub rm : APath → Op g store Bool
    unfolding reindex_around
    rm path = if is_root path then refused else reindex_around (path ∷ []) (rm_into fuel path)

    unfoldable pub mv : APath → APath → Op g store (Unit {0})
    unfolding reindex_around begins_with
    mv src dst =
        if begins_with dst.names src.names
        then refused
        else if is_root src
        then refused
        else if is_root dst
        then refused
        else reindex_around (src ∷ dst ∷ []) (mv_into fuel src dst)

    unfoldable pub cp : APath → APath → Op g store (Unit {0})
    unfolding reindex_around begins_with
    cp src dst =
        if begins_with dst.names src.names
        then refused
        else if is_root dst
        then refused
        else reindex_around (dst ∷ []) (cp_into fuel src dst)

  unfoldable pub mkdir : APath → Op g store (Unit {0})
  unfolding run
  mkdir path = run (ensure_dir path >>= λ akey. pure tt)

unfoldable pub require_gid : (Text → Option ℕ) → Text → Result ℕ
require_gid gid_of name = elim (gid_of name) [ none ↦ err cannot_access | some gid ↦ ok gid ]

-- The names of users and groups are looked up in the metadata.
module _ {g : Engine} (store : Store (List ℕ)) (chrono : Chrono) (indexes : List IndexEntry)
    (now : ℕ) (uid_of gid_of : Text → Option ℕ) where
  unfoldable pub chown : APath → Text → Op g store (Unit {0})
  unfolding run
  chown path owner txn = elim (uid_of owner) [
    | none ↦ (err cannot_access, txn)
    | some uid ↦ run store chrono indexes now (chown_into path uid) txn
  ]

  unfoldable pub set_acl : APath → AclClass → Rights → Op g store (Unit {0})
  unfolding run require_gid set_group_rights
  set_acl path AclClass.user rights txn =
      run store chrono indexes now (set_acl_into path (λ acl. record acl { owner = rights })) txn
  set_acl path AclClass.other rights txn =
      run store chrono indexes now (set_acl_into path (λ acl. record acl { other = rights })) txn
  set_acl path (AclClass.group name) rights txn = elim (require_gid gid_of name) [
    | err e ↦ (err e, txn)
    | ok gid ↦
        run store chrono indexes now (set_acl_into path (λ acl. set_group_rights acl gid rights))
          txn
  ]

  unfoldable pub add_group : APath → Text → Op g store (Unit {0})
  unfolding run require_gid Acl.add_group
  add_group path name txn = elim (require_gid gid_of name) [
    | err e ↦ (err e, txn)
    | ok gid ↦ run store chrono indexes now (set_acl_into path (λ acl. Acl.add_group acl gid)) txn
  ]

  unfoldable pub del_group : APath → Text → Op g store (Unit {0})
  unfolding run require_gid remove_group
  del_group path name txn = elim (require_gid gid_of name) [
    | err e ↦ (err e, txn)
    | ok gid ↦ run store chrono indexes now (set_acl_into path (λ acl. remove_group acl gid)) txn
  ]
