-- ===== src/Txn/Reads.antt =====
-- crates/arbordb/src/txn/context/ctx.rs: what a mutation reads, its own unwritten changes first, and the
-- links of a directory.
use arbordb.Common.{
  ℕ, zero, suc, List, [], ◌∷◌, Option, none, some, Bool, true, false, ◌==◌, if◌then◌else◌, Result,
  out_of_fuel,
}
use arbordb.Acl.{Acl}
use arbordb.Acl.Grades.{Rights}
use arbordb.Codec.Dir.{Children}
use arbordb.Codec.Dir.Names.{find}
use arbordb.Data.Utf8.{Text}
use arbordb.Engine.Entry.{EntryKind, child_in, kind_of, children_in, keys_in, map_some}
use arbordb.Inode.Functions
use arbordb.Key.{AKey, root}
use arbordb.Path.Access.{APath}
use arbordb.Perm.Authorize.{Session, Principal, authorize}
use arbordb.Txn.Buffer.{dir_get, dir_put, file_get}
use arbordb.Txn.Children.{insert, remove, values}
use arbordb.Txn.Context.{
  Engine, Action, ◌>>=◌, ◌>>◌, pure, lift, fail, reads, on_dirs, on_inodes, for_each,
  invalidate_verified, verify_integrity, seals, acl_bytes,
}

-- `Option::flatten`
abbrev pub flatten {ℓ} : {A : Type ℓ} → Option (Option A) → Option A
flatten none = none
flatten (some o) = o

-- `unwrap_or_default`
abbrev pub or_empty : Option Children → Children
or_empty none = []
or_empty (some children) = children

module _ {g : Engine} where
  unfoldable pub read_verified : AKey → Action g (Option (List ℕ))
  read_verified akey = do
    edited ← reads (λ c. file_get c.dirs akey)
    elim edited [
      | some entry ↦ pure (some entry)
      | none ↦ do
        held ← reads (λ c. g.data_store.get c.entries akey)
        elim held [
          | none ↦ pure none
          | some entry ↦ verify_integrity akey entry >> pure (some entry)
        ]
    ]

  unfoldable pub has_entry : AKey → Action g Bool
  has_entry akey = do
    buffered ← reads (λ c. dir_get c.dirs akey)
    elim buffered [
      | some children ↦ pure true
      | none ↦
          reads (λ c. elim (g.data_store.get c.entries akey) [ none ↦ false | some entry ↦ true ])
    ]

  -- An entry of the table is verified before it is read.
  unfoldable pub from_table {ℓ} :
      {R : Type ℓ} → AKey → (List ℕ → Result R) → Option (List ℕ) → Action g (Option R)
  from_table akey f none = pure none
  from_table akey f (some entry) = do verify_integrity akey entry; lift (map_some (f entry))

  unfoldable pub from_buffer {ℓ} :
      {R : Type ℓ} → AKey → (List ℕ → Result R) → Option (List ℕ) → Action g (Option R)
  from_buffer akey f none = do
    held ← reads (λ c. g.data_store.get c.entries akey)
    from_table akey f held
  from_buffer akey f (some entry) = lift (map_some (f entry))

  unfoldable pub with_entry {ℓ} : {R : Type ℓ} → AKey → (List ℕ → Result R) → Action g (Option R)
  with_entry akey f = do edited ← reads (λ c. file_get c.dirs akey); from_buffer akey f edited

  -- A directory that is buffered answers for itself; else its entry does.
  unfoldable pub from_dir {ℓ κ} :
      {R : Type ℓ} {A : Type κ}
      → AKey
      → (Children → A)
      → (List ℕ → Result R)
      → (Option R → A)
      → Option Children
      → Action g A
  from_dir akey buffered f stored none = do found ← with_entry akey f; pure (stored found)
  from_dir akey buffered f stored (some children) = pure (buffered children)

  unfoldable pub with_dir {ℓ κ} :
      {R : Type ℓ} {A : Type κ}
      → AKey
      → (Children → A)
      → (List ℕ → Result R)
      → (Option R → A)
      → Action g A
  with_dir akey buffered f stored = do
    found ← reads (λ c. dir_get c.dirs akey)
    from_dir akey buffered f stored found

  unfoldable pub child : AKey → Text → Action g (Option AKey)
  child parent name = with_dir parent (find name) (λ entry. child_in entry name) flatten

  unfoldable pub kind : AKey → Action g (Option EntryKind)
  kind akey = with_dir akey (λ children. some EntryKind.dir) kind_of (λ found. found)

  unfoldable pub dir_children : AKey → Action g Children
  dir_children akey = with_dir akey (λ children. children) children_in or_empty

  unfoldable pub cascade_children : AKey → Action g (Option (List AKey))
  cascade_children akey =
      with_dir akey (λ children. some (values children)) keys_in (λ found. found)

  -- `dir_link` and `dir_unlink` change the buffered children, which are the stored ones at first.
  unfoldable pub dir_change : AKey → (Children → Children) → Action g (Unit {0})
  dir_change parent change = do
    buffered ← reads (λ c. dir_get c.dirs parent)
    elim buffered [
      | some children ↦ on_dirs (dir_put parent (change children))
      | none ↦ do loaded ← dir_children parent; on_dirs (dir_put parent (change loaded))
    ]

  unfoldable pub dir_link : AKey → Text → AKey → Action g (Unit {0})
  dir_link parent name child = dir_change parent (insert name child)

  unfoldable pub dir_unlink : AKey → Text → Action g (Unit {0})
  dir_unlink parent name = dir_change parent (remove name)

  -- An authenticated user owns the new directory; the root has no ACL.
  unfoldable pub default_acl_as : Principal → Text → AKey → Action g (Unit {0})
  default_acl_as (Principal.user session) table akey =
      if akey == root
      then pure tt
      else on_inodes (λ t. Functions.set_default_acl g.inode_store t table akey session.uid)
  default_acl_as (Principal.guest pubkey) table akey = pure tt
  default_acl_as Principal.unrestricted table akey = pure tt

  unfoldable pub stamp_new_dir_acl : AKey → Action g (Unit {0})
  stamp_new_dir_acl akey c = default_acl_as c.principal c.table akey c

  unfoldable pub acl : AKey → Action g (Option Acl)
  acl akey = do
    found ← reads (λ c. Functions.read_acl g.inode_store c.inodes c.table akey)
    lift found

  unfoldable pub check : AKey → Rights → Action g (Unit {0})
  check akey needed = do
    found ← acl akey
    principal ← reads (λ c. c.principal)
    lift (authorize principal akey found needed)

  -- What `check_deletable` does below an a-node of a kind.
  unfoldable pub check_below :
      (AKey → Action g (Unit {0})) → AKey → Option EntryKind → Action g (Unit {0})
  check_below check_one akey none = pure tt
  check_below check_one akey (some EntryKind.file) = pure tt
  check_below check_one akey (some EntryKind.dir) = do
    children ← dir_children akey
    for_each check_one (values children)

  -- The descent is bounded by the depth of the tree.
  unfoldable pub check_deletable : ℕ → AKey → Action g (Unit {0})
  check_deletable zero akey = fail out_of_fuel
  check_deletable (suc depth) akey = do
    check akey Rights.delete
    found ← kind akey
    check_below (check_deletable depth) akey found

  unfoldable pub resolve_from : AKey → List Text → Action g (Option AKey)
  resolve_from akey [] = pure (some akey)
  resolve_from akey (name ∷ names) = do
    check akey Rights.access
    found ← child akey name
    elim found [ none ↦ pure none | some next ↦ resolve_from next names ]

  unfoldable pub resolve : APath → Action g (Option AKey)
  resolve path = resolve_from root path.names

  unfoldable pub write_acl : AKey → Acl → Action g (Unit {0})
  write_acl akey acl = do
    invalidate_verified akey
    table ← reads (λ c. c.table)
    on_inodes (λ t. Functions.set_acl g.inode_store t table akey acl)

  -- The tags over an entry and the ACL that now stands.
  unfoldable pub reseal : Session → AKey → List ℕ → Action g (Unit {0})
  reseal session akey entry = do
    found ← acl akey
    table ← reads (λ c. c.table)
    on_inodes (λ t.
        Functions.seal_mac g.inode_store t table akey
          (seals g.crypto session table akey entry (acl_bytes found)).0)
    on_inodes (λ t.
        Functions.seal_sig g.inode_store t table akey
          (seals g.crypto session table akey entry (acl_bytes found)).1)

  unfoldable pub reseal_integrity : AKey → Action g (Unit {0})
  reseal_integrity akey = do
    principal ← reads (λ c. c.principal)
    elim principal [
      | Principal.user session ↦ do
        edited ← reads (λ c. file_get c.dirs akey)
        elim edited [
          | some entry ↦ reseal session akey entry
          | none ↦ do
            held ← reads (λ c. g.data_store.get c.entries akey)
            elim held [ some entry ↦ reseal session akey entry | none ↦ pure tt ]
        ]
      | Principal.guest pubkey ↦ pure tt
      | Principal.unrestricted ↦ pure tt
    ]
