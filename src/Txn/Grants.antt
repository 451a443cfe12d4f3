-- ===== src/Txn/Grants.antt =====
-- crates/arbordb/src/txn/context/table.rs and `reap_owned` of ctx.rs: changes of owner and of an ACL, and
-- the removal of all that a user owns.
use arbordb.Common.{
  ℕ, zero, suc, List, [], ◌∷◌, ◌++◌, Option, none, some, Bool, false, ◌==◌, if◌then◌else◌, err,
  value_not_found, cannot_access, permission_denied, out_of_fuel,
}
use arbordb.Acl.{Acl}
use arbordb.Acl.Grades.{Rights}
use arbordb.Codec.Dir.{Children}
use arbordb.Data.Utf8.{Text}
use arbordb.Engine.Entry.{EntryKind}
use arbordb.Key.{AKey, root}
use arbordb.Path.Access.{APath}
use arbordb.Perm.Authorize.{authorize, authorize_chown}
use arbordb.Txn.Context.{Engine, Action, ◌>>=◌, ◌>>◌, pure, lift, fail, reads, for_each}
use arbordb.Txn.Reads.{
  read_verified, child, kind, dir_children, resolve, acl, write_acl, reseal_integrity,
}
use arbordb.Txn.Tree.{or_fail, cascade_delete, unlink_child}

abbrev owned_by : ℕ → Option Acl → Bool
owned_by uid none = false
owned_by uid (some held) = held.owner_uid == uid

module _ {g : Engine} where
  unfoldable pub chown_into : APath → ℕ → Action g (Unit {0})
  chown_into path new_uid = do
    resolved ← resolve path
    akey ← or_fail resolved (err value_not_found)
    if akey == root then fail permission_denied else (do
      read_verified akey
      found ← acl akey
      held ← or_fail found (err cannot_access)
      principal ← reads (λ c. c.principal)
      lift (authorize_chown principal held)
      write_acl akey (record held { owner_uid = new_uid })
      reseal_integrity akey)

  unfoldable pub set_acl_into : APath → (Acl → Acl) → Action g (Unit {0})
  set_acl_into path apply = do
    resolved ← resolve path
    akey ← or_fail resolved (err value_not_found)
    if akey == root then fail permission_denied else (do
      read_verified akey
      found ← acl akey
      held ← or_fail found (err cannot_access)
      principal ← reads (λ c. c.principal)
      lift (authorize principal akey (some held) Rights.modify)
      write_acl akey (apply held)
      reseal_integrity akey)

  -- The loop of `collect_owned` over the children of a directory.
  unfoldable pub collect_children :
      (AKey → List (AKey × Text) → Action g (List (AKey × Text)))
      → AKey
      → ℕ
      → Children
      → List (AKey × Text)
      → Action g (List (AKey × Text))
  collect_children descend dir uid [] out = pure out
  collect_children descend dir uid ((name, akey) ∷ rest) out = do
    found ← acl akey
    next ←
        (if owned_by uid found
          then pure (out ++ (dir, name) ∷ [])
          else (kind akey >>= λ held. elim held [
            | none ↦ pure out
            | some EntryKind.file ↦ pure out
            | some EntryKind.dir ↦ descend akey out
          ]))
    collect_children descend dir uid rest next

  unfoldable pub collect_owned : ℕ → AKey → ℕ → List (AKey × Text) → Action g (List (AKey × Text))
  collect_owned zero dir uid out = fail out_of_fuel
  collect_owned (suc depth) dir uid out = do
    children ← dir_children dir
    collect_children (λ akey. collect_owned depth akey uid) dir uid children out

  unfoldable pub reap : ℕ → AKey × Text → Action g (Unit {0})
  reap depth victim = do
    found ← child victim.0 victim.1
    elim found [
      | none ↦ pure tt
      | some akey ↦ do cascade_delete depth akey; unlink_child victim.0 victim.1
    ]

  unfoldable pub reap_owned : ℕ → ℕ → Action g (Unit {0})
  reap_owned depth uid = do victims ← collect_owned depth root uid []; for_each (reap depth) victims
