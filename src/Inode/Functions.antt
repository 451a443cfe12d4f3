-- ===== src/Inode/Functions.antt =====
-- crates/arbordb/src/inode/functions.rs: the reads and changes of the `$inodes` table. A failure of the
-- engine itself is left out: its `get` and `insert` return.
pub mod Keys
pub mod Changes
use arbordb.Common.{
  ℕ, ◌^◌, List, [], ◌∷◌, ◌++◌, Option, none, some, Bool, true, false, Ordering, Result, ok, err,
  ◌>>=◌, if◌then◌else◌,
}
use arbordb.Common.Int.{compare_ℤ, to_signed}
use arbordb.Codec.Putters.{put_bytes}
use arbordb.Data.Utf8.{Text}
use arbordb.Key.{AKey, into_bytes}
use arbordb.Store.{Store}
use arbordb.Acl.{Acl, default_for}
use arbordb.Acl
use arbordb.Inode.Node.{UnderlyingTimestamps, Inode, default, decode, encode}

unfoldable pub inode_key : Text → AKey → List ℕ
unfolding put_bytes into_bytes
inode_key table akey = put_bytes [] table ++ into_bytes akey

-- `>` on `i64`
abbrev pub after : ℕ → ℕ → Bool
after a b = elim (compare_ℤ (to_signed (2 ^ 63) a) (to_signed (2 ^ 63) b)) [
  | Ordering.lt ↦ false
  | Ordering.eq ↦ false
  | Ordering.gt ↦ true
]

-- The times of a write: what is there is kept, apart from `modified`.
unfoldable pub touched : Inode → ℕ → Inode
touched inode now = elim inode.timestamps [
  | none ↦ record inode {
    timestamps = some (record { created = now; modified = now; accessed = now });
  }
  | some times ↦ record inode {
    timestamps =
        some (record { created = times.created; modified = now; accessed = times.accessed });
  }
]

-- The default list of a new a-node that has an owner.
unfoldable pub owned : Inode → Option ℕ → Inode
unfolding default_for
owned inode none = inode
owned inode (some owner) = elim inode.acl [
  | none ↦ record inode { acl = some (default_for owner) }
  | some acl ↦ inode
]

-- What `bump_access` makes of an inode, and `none` where it returns without a write.
unfoldable pub bumped : Inode → ℕ → Option Inode
bumped inode when = elim inode.timestamps [
  | none ↦ some (record inode {
    timestamps = some (record { created = when; modified = when; accessed = when });
  })
  | some times ↦
      if after when times.accessed
      then some (record inode { timestamps = some (record times { accessed = when }) })
      else none
]

-- `inode.acl().map(|acl| acl.encode()).unwrap_or_default()`
unfoldable pub acl_bytes : Inode → List ℕ
unfolding Acl.encode
acl_bytes inode = elim inode.acl [ none ↦ [] | some acl ↦ Acl.encode acl ]

unfoldable pub sealed : Inode → List ℕ × List ℕ → Inode
sealed inode (mac, sig) = record inode { mac = some mac; sig = some sig }

abbrev pub Meta : Type 0
Meta = Option Acl × Option (List ℕ) × Option (List ℕ)

module _ (store : Store (List ℕ)) where
  -- The inode that is stored, or the empty one.
  unfoldable pub load : store.Table → List ℕ → Result Inode
  unfolding decode
  load inodes key = elim (store.get inodes key) [ none ↦ ok default | some blob ↦ decode blob ]

  unfoldable pub touch : store.Table → Text → AKey → ℕ → Result store.Table
  unfolding inode_key load touched encode
  touch inodes table akey now = do
    inode ← load inodes (inode_key table akey)
    ok (store.insert (inode_key table akey) (encode (touched inode now)) inodes)

  unfoldable pub stamp_and_seal :
      store.Table → Text → AKey → ℕ → Option ℕ → (List ℕ → List ℕ × List ℕ) → Result store.Table
  unfolding inode_key load touched owned acl_bytes sealed encode
  stamp_and_seal inodes table akey now owner seal = do
    inode ← load inodes (inode_key table akey)
    let settled = owned (touched inode now) owner
    ok (
        store.insert (inode_key table akey) (encode (sealed settled (seal (acl_bytes settled))))
          inodes)

  unfoldable pub forget : store.Table → Text → AKey → store.Table
  unfolding inode_key
  forget inodes table akey = store.remove (inode_key table akey) inodes

  unfoldable pub bump_access : store.Table → Text → AKey → ℕ → Result store.Table
  unfolding inode_key decode bumped encode
  bump_access inodes table akey when = elim (store.get inodes (inode_key table akey)) [
    | none ↦ ok inodes
    | some blob ↦ do
      inode ← decode blob
      elim (bumped inode when) [
        | none ↦ ok inodes
        | some changed ↦ ok (store.insert (inode_key table akey) (encode changed) inodes)
      ]
  ]

  unfoldable pub read_acl : store.Table → Text → AKey → Result (Option Acl)
  unfolding inode_key decode
  read_acl inodes table akey = elim (store.get inodes (inode_key table akey)) [
    | none ↦ ok none
    | some blob ↦ do inode ← decode blob; ok inode.acl
  ]

  unfoldable pub read_meta : store.Table → Text → AKey → Result Meta
  unfolding inode_key decode
  read_meta inodes table akey = elim (store.get inodes (inode_key table akey)) [
    | none ↦ ok (none, none, none)
    | some blob ↦ do inode ← decode blob; ok (inode.acl, inode.mac, inode.sig)
  ]

  unfoldable pub set_default_acl : store.Table → Text → AKey → ℕ → Result store.Table
  unfolding inode_key load default_for encode
  set_default_acl inodes table akey owner = do
    inode ← load inodes (inode_key table akey)
    elim inode.acl [
      | none ↦ ok (
          store.insert (inode_key table akey)
            (encode (record inode { acl = some (default_for owner) })) inodes)
      | some acl ↦ ok inodes
    ]

  unfoldable pub set_acl : store.Table → Text → AKey → Acl → Result store.Table
  unfolding inode_key load encode
  set_acl inodes table akey acl = do
    inode ← load inodes (inode_key table akey)
    ok (store.insert (inode_key table akey) (encode (record inode { acl = some acl })) inodes)

  unfoldable pub seal_mac : store.Table → Text → AKey → List ℕ → Result store.Table
  unfolding inode_key load encode
  seal_mac inodes table akey mac = do
    inode ← load inodes (inode_key table akey)
    ok (store.insert (inode_key table akey) (encode (record inode { mac = some mac })) inodes)

  unfoldable pub seal_sig : store.Table → Text → AKey → List ℕ → Result store.Table
  unfolding inode_key load encode
  seal_sig inodes table akey sig = do
    inode ← load inodes (inode_key table akey)
    ok (store.insert (inode_key table akey) (encode (record inode { sig = some sig })) inodes)
