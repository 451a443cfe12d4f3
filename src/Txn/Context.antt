-- ===== src/Txn/Context.antt =====
-- crates/arbordb/src/txn/context/ctx.rs, as it is built with permissions: the tables that a mutation
-- writes through. An action returns its result and the context that it leaves, after an error too.
-- A failure of the engine itself is left out.
pub mod Steps
use arbordb.Common.{
  ℕ, zero, suc, ◌+◌, List, [], ◌∷◌, Option, none, some, Bool, true, false, ◌==◌, ◌||◌, not,
  if◌then◌else◌, Error, Result, ok, err, corrupt, cannot_access, tampered, out_of_fuel,
}
use arbordb.Acl.{Acl}
use arbordb.Acl.Grades.{Rights}
use arbordb.Acl
use arbordb.Codec.Dir.{Children}
use arbordb.Codec.Dir
use arbordb.Codec.Dir.Names.{find}
use arbordb.Data.Utf8.{Text}
use arbordb.Engine.Entry.{EntryKind, entry_split, child_in}
use arbordb.Inode.Functions
use arbordb.Key.{AKey, root}
use arbordb.Perm.Authorize.{Session, Principal, authorize, contains}
use arbordb.Perm.Integrity.{Crypto, mac_value, sign_value, ct_eq}
use arbordb.Store.{Store}
use arbordb.Txn.Buffer.{WriteBuffer, dir_get, dir_put, file_get, file_put, file_forget}
use arbordb.Txn.Buffer
use arbordb.Txn.Children.{insert, remove, values}

-- What the repository does not hold: the tables of redb, the cryptography, and the random keys, which
-- are drawn in order.
pub record Engine : Type 1 where
  pub data_store : Store AKey
  pub inode_store : Store (List ℕ)
  pub crypto : Crypto
  pub generate : ℕ → AKey

pub record Context (g : Engine) : Type 0 where
  pub entries : g.data_store.Table
  pub inodes : g.inode_store.Table
  pub table : Text
  pub now : ℕ
  pub dirs : WriteBuffer
  pub principal : Principal
  pub verified : List AKey
  pub drawn : ℕ

abbrev pub Action {ℓ} : Engine → Type ℓ → Type ℓ
Action g A = Context g → Result A × Context g

infixl 5 ◌>>=◌ ◌>>◌
unfoldable pub ◌>>=◌ {ℓ κ} :
    {g : Engine} {A : Type ℓ} {B : Type κ} → Action g A → (A → Action g B) → Action g B
◌>>=◌ m f c = let (r, c') = m c in elim r [ ok a ↦ f a c' | err e ↦ (err e, c') ]

unfoldable pub ◌>>◌ {ℓ κ} :
    {g : Engine} {A : Type ℓ} {B : Type κ} → Action g A → Action g B → Action g B
m >> k = m >>= λ _. k

-- `HashSet::remove`
unfoldable pub without : AKey → List AKey → List AKey
without akey [] = []
without akey (k ∷ ks) = let rest = without akey ks in if k == akey then rest else k ∷ rest

module _ {ℓ} {g : Engine} {A : Type ℓ} where
  unfoldable pub pure : A → Action g A
  pure a c = (ok a, c)

  -- A result that does not depend on the context.
  unfoldable pub lift : Result A → Action g A
  lift r c = (r, c)

  unfoldable pub fail : Error → Action g A
  fail e c = (err e, c)

  unfoldable pub reads : (Context g → A) → Action g A
  reads f c = (ok (f c), c)

-- `for item in items { body(item)? }`
unfoldable pub for_each {ℓ} :
    {g : Engine} {A : Type ℓ} → (A → Action g (Unit {0})) → List A → Action g (Unit {0})
for_each body [] = pure tt
for_each body (x ∷ xs) = do body x; for_each body xs

-- The owner of a new a-node; the root has none.
abbrev pub owner_of : Session → AKey → Option ℕ
owner_of session akey = if akey == root then none else some session.uid

abbrev pub seals : Crypto → Session → Text → AKey → List ℕ → List ℕ → List ℕ × List ℕ
seals crypto session table akey entry acl = (
  mac_value crypto session.key table akey entry acl,
  sign_value crypto session.sign_seed table akey entry acl,
)

abbrev pub acl_bytes : Option Acl → List ℕ
acl_bytes none = []
acl_bytes (some acl) = Acl.encode acl

-- The stored tag is there and is the one expected.
unfoldable pub tag_fits : Option (List ℕ) → List ℕ → Bool
tag_fits none expected = false
tag_fits (some mac) expected = ct_eq mac expected

module _ {g : Engine} where
  unfoldable pub modify : (Context g → Context g) → Action g (Unit {0})
  modify f c = (ok tt, f c)

  unfoldable pub on_dirs : (WriteBuffer → WriteBuffer) → Action g (Unit {0})
  on_dirs f c = (ok tt, record c { dirs = f c.dirs })

  -- A change of the inodes that may fail and then leaves them.
  unfoldable pub on_inodes :
      (g.inode_store.Table → Result g.inode_store.Table) → Action g (Unit {0})
  on_inodes f c = elim (f c.inodes) [ ok t ↦ (ok tt, record c { inodes = t }) | err e ↦ (err e, c) ]

  -- `AKey::generate`
  unfoldable pub generate : Action g AKey
  generate c = (ok (g.generate c.drawn), record c { drawn = c.drawn + 1 })

  unfoldable pub invalidate_verified : AKey → Action g (Unit {0})
  invalidate_verified akey c = (ok tt, record c { verified = without akey c.verified })

  -- The `match` of `put_entry`: an authenticated user stamps and seals, any other only stamps.
  unfoldable pub stamp_as : Principal → Text → ℕ → AKey → List ℕ → Action g (Unit {0})
  stamp_as (Principal.user session) table now akey entry = on_inodes (λ t.
      Functions.stamp_and_seal g.inode_store t table akey now (owner_of session akey)
        (seals g.crypto session table akey entry))
  stamp_as (Principal.guest pubkey) table now akey entry =
      on_inodes (λ t. Functions.touch g.inode_store t table akey now)
  stamp_as Principal.unrestricted table now akey entry =
      on_inodes (λ t. Functions.touch g.inode_store t table akey now)

  unfoldable pub stamp : AKey → List ℕ → Action g (Unit {0})
  stamp akey entry c = stamp_as c.principal c.table c.now akey entry c

  unfoldable pub put_entry : AKey → List ℕ → Action g (Unit {0})
  put_entry akey entry = do
    modify (λ c. record c { entries = g.data_store.insert akey entry c.entries })
    on_dirs (file_forget akey)
    invalidate_verified akey
    stamp akey entry

  unfoldable pub put_file_edit : AKey → List ℕ → Action g (Unit {0})
  put_file_edit akey entry = do
    buffering ← reads (λ c. c.dirs.buffering)
    if buffering
        then (invalidate_verified akey >> on_dirs (file_put akey entry))
        else put_entry akey entry

  unfoldable pub remove_entry : AKey → Action g (Unit {0})
  remove_entry akey = do
    modify (λ c. record c { entries = g.data_store.remove akey c.entries })
    invalidate_verified akey
    modify (λ c. record c { inodes = Functions.forget g.inode_store c.inodes c.table akey })
    on_dirs (Buffer.forget akey)

  -- The tag that is stored with an a-node is the one over its entry and its ACL.
  unfoldable pub verify_tag : Session → AKey → List ℕ → Action g (Unit {0})
  verify_tag session akey entry = do
    found ← reads (λ c. Functions.read_meta g.inode_store c.inodes c.table akey)
    (acl, mac, sig) ← lift found
    table ← reads (λ c. c.table)
    if tag_fits mac (mac_value g.crypto session.key table akey entry (acl_bytes acl))
        then modify (λ c. record c { verified = akey ∷ c.verified })
        else fail tampered

  unfoldable pub verify_session : Session → AKey → List ℕ → Action g (Unit {0})
  verify_session session akey entry = do
    seen ← reads (λ c. contains akey c.verified)
    if seen then pure tt else verify_tag session akey entry

  -- The guest and an unrestricted handle have no key to verify by.
  unfoldable pub verify_as : AKey → List ℕ → Principal → Action g (Unit {0})
  verify_as akey entry (Principal.user session) = verify_session session akey entry
  verify_as akey entry (Principal.guest pubkey) = pure tt
  verify_as akey entry Principal.unrestricted = pure tt

  unfoldable pub verify_integrity : AKey → List ℕ → Action g (Unit {0})
  verify_integrity akey entry = do
    principal ← reads (λ c. c.principal)
    verify_as akey entry principal
