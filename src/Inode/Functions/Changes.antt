-- ===== src/Inode/Functions/Changes.antt =====
-- What a change of the `$inodes` table does to the a-node it is for, and to the others.
use arbordb.Common.{
  ℕ, ◌^◌, ◌<◌, ◌≡◌, ◌≢◌, refl, sym, ap, ◌∙◌, List, [], Option, none, some, true, false, length, ok,
  ap₂, ◌>>=◌, if◌then◌else◌, arith, Bool, Ordering,
}
use arbordb.Common.Int.{compare_ℤ, to_signed}
use arbordb.Data.Utf8.{Text}
use arbordb.Key.{AKey}
use arbordb.Store.{Store}
use arbordb.Acl.{Acl, default_for}
use arbordb.Acl
use arbordb.Inode.Node.{UnderlyingTimestamps, Inode, default, decode, encode, IsValid}
use arbordb.Inode.RoundTrip.{decode_inode-encode}
use arbordb.Inode.Functions.{
  inode_key, touched, owned, acl_bytes, sealed, Meta, load, touch, stamp_and_seal, bumped,
  bump_access, read_meta,
}

-- An inode that the table can hold.
abbrev pub Storable : Inode → Type 0
Storable inode = IsValid inode × (length (encode inode) < 2 ^ 64)

-- The later of two times, which are signed.
abbrev pub later : ℕ → ℕ → ℕ
later a b = elim (compare_ℤ (to_signed (2 ^ 63) b) (to_signed (2 ^ 63) a)) [
  | Ordering.lt ↦ a
  | Ordering.eq ↦ a
  | Ordering.gt ↦ b
]

-- The times after an access.
abbrev pub seen : Option UnderlyingTimestamps → ℕ → UnderlyingTimestamps
seen none when = record { created = when; modified = when; accessed = when }
seen (some times) when = record times { accessed = later times.accessed when }

abbrev pub visit : ℕ → Inode → Inode
visit when inode = record inode { timestamps = some (seen inode.timestamps when) }

-- What the table holds after an access.
abbrev pub visited : ℕ → Option Inode → Option (List ℕ)
visited when none = none
visited when (some inode) = some (encode (visit when inode))

-- What is stored when something is written, and what was there otherwise.
abbrev settled : Option Inode → Inode → Inode
settled none inode = inode
settled (some result) inode = result

settled-bumped : (inode : Inode) (when : ℕ) → settled (bumped inode when) inode ≡ visit when inode
unfolding bumped
settled-bumped inode when = by_times inode.timestamps refl
  where
    by_order :
        (times : UnderlyingTimestamps) (o : Ordering)
        → settled
            (if elim o as (λ _. Bool) [
              | Ordering.lt ↦ false
              | Ordering.eq ↦ false
              | Ordering.gt ↦ true
            ]
              then some (record inode { timestamps = some (record times { accessed = when }) })
              else none)
            (record inode { timestamps = some times })
          ≡ record inode {
            timestamps = some (record times {
              accessed = elim o as (λ _. ℕ) [
                | Ordering.lt ↦ times.accessed
                | Ordering.eq ↦ times.accessed
                | Ordering.gt ↦ when
              ];
            });
          }
    by_order times Ordering.lt = refl
    by_order times Ordering.eq = refl
    by_order times Ordering.gt = refl

    by_times :
        (o : Option UnderlyingTimestamps)
        → inode.timestamps ≡ o
        → settled (bumped inode when) inode ≡ visit when inode
    by_times none e = rw (bumped, e) refl
    by_times (some times) e = rw (bumped, e) (by_order times _)

bumped-none : (inode : Inode) (when : ℕ) → bumped inode when ≡ none → inode ≡ visit when inode
bumped-none inode when e = sym (ap (λ o. settled o inode) e) ∙ settled-bumped inode when

bumped-some :
    (inode result : Inode) (when : ℕ) → bumped inode when ≡ some result → result ≡ visit when inode
bumped-some inode result when e = sym (ap (λ o. settled o inode) e) ∙ settled-bumped inode when

-- A time of creation or of access that a write keeps, or the time of the write when there was none.
abbrev pub created_by : Option UnderlyingTimestamps → ℕ → ℕ
created_by none now = now
created_by (some times) now = times.created

abbrev pub accessed_by : Option UnderlyingTimestamps → ℕ → ℕ
accessed_by none now = now
accessed_by (some times) now = times.accessed

-- The inode with the times of a write.
abbrev pub written : Inode → ℕ → Inode
written inode now = record inode {
  timestamps = some (record {
    created = created_by inode.timestamps now;
    modified = now;
    accessed = accessed_by inode.timestamps now;
  });
}

touched-written : (inode : Inode) (now : ℕ) → touched inode now ≡ written inode now
unfolding touched
touched-written inode now = go inode.timestamps
  where
    go :
        (o : Option UnderlyingTimestamps)
        → (elim o as (λ _. Inode) [
          | none ↦ record inode {
            timestamps = some (record { created = now; modified = now; accessed = now });
          }
          | some times ↦ record inode {
            timestamps =
                some
                  (record { created = times.created; modified = now; accessed = times.accessed });
          }
        ])
          ≡ record inode {
            timestamps = some (record {
              created = created_by o now;
              modified = now;
              accessed = accessed_by o now;
            });
          }
    go none = refl
    go (some times) = refl

abbrev meta_of : Inode → Meta
meta_of inode = (inode.acl, inode.mac, inode.sig)

touched-meta : (inode : Inode) (now : ℕ) → meta_of (touched inode now) ≡ meta_of inode
unfolding touched
touched-meta inode now = go inode.timestamps refl
  where
    go :
        (o : Option UnderlyingTimestamps)
        → inode.timestamps ≡ o
        → meta_of (touched inode now) ≡ meta_of inode
    go none e = rw (touched, e) refl
    go (some times) e = rw (touched, e) refl

-- The list that is there, or the default one of the owner.
abbrev pub settled_acl : Option Acl → Option ℕ → Option Acl
settled_acl (some acl) owner = some acl
settled_acl none none = none
settled_acl none (some owner) = some (default_for owner)

owned-acl :
    (inode : Inode) (owner : Option ℕ) → (owned inode owner).acl ≡ settled_acl inode.acl owner
unfolding owned
owned-acl inode owner = go owner inode.acl refl
  where
    go :
        (owner : Option ℕ) (o : Option Acl)
        → inode.acl ≡ o
        → (owned inode owner).acl ≡ settled_acl inode.acl owner
    go none none e = ground (arith, e)
    go none (some acl) e = ground (arith, e)
    go (some uid) none e = ground (arith, e)
    go (some uid) (some acl) e = ground (arith, e)

abbrev pub list_bytes : Option Acl → List ℕ
list_bytes none = []
list_bytes (some acl) = Acl.encode acl

acl_bytes-eq : (inode : Inode) → acl_bytes inode ≡ list_bytes inode.acl
unfolding acl_bytes
acl_bytes-eq inode = go inode.acl refl
  where
    go : (o : Option Acl) → inode.acl ≡ o → acl_bytes inode ≡ list_bytes inode.acl
    go none e = rw (acl_bytes, e) refl
    go (some acl) e = rw (acl_bytes, e) refl

module _ (store : Store (List ℕ)) where
  -- The table holds this inode under the key, or none.
  abbrev pub Held : store.Table → List ℕ → Option Inode → Type 0
  Held inodes key none = store.get inodes key ≡ none
  Held inodes key (some inode) = (store.get inodes key ≡ some (encode inode)) × Storable inode

  -- The inode that a change starts from.
  abbrev pub or_default : Option Inode → Inode
  or_default none = default
  or_default (some inode) = inode

  load_lem :
      (inodes : store.Table) (key : List ℕ) (held : Option Inode)
      → Held inodes key held
      → load store inodes key ≡ ok (or_default held)
  unfolding load
  load_lem inodes key none h = rw (load, h)
  load_lem inodes key (some inode) h = rw (load, h.0, decode_inode-encode inode h.1.0 h.1.1)

  read_meta_lem :
      (inodes : store.Table) (table : Text) (akey : AKey) (held : Option Inode)
      → Held inodes (inode_key table akey) held
      → read_meta store inodes table akey
        ≡ ok ((or_default held).acl, (or_default held).mac, (or_default held).sig)
  unfolding read_meta
  read_meta_lem inodes table akey none h = rw (read_meta, h)
  read_meta_lem inodes table akey (some inode) h =
      rw (read_meta, h.0, decode_inode-encode inode h.1.0 h.1.1)

  -- After a write was recorded, the a-node is modified at the time of the write, its creation and
  -- access are kept from before, or are that time if there were none; all else of its inode is what it
  -- was, its list and its tags read as before, and the inode of any other key is untouched. The table holds
  -- no inode for the a-node or the encoding of a valid one, and the new inode is valid too.
  pub touch_lem :
      (inodes : store.Table) (table : Text) (akey : AKey) (now : ℕ) (held : Option Inode)
      (other : List ℕ)
      → Held inodes (inode_key table akey) held
      → Storable (written (or_default held) now)
      → inode_key table akey ≢ other
      → (changed : store.Table) × (touch store inodes table akey now ≡ ok changed)
        × Held changed (inode_key table akey) (
            some (record (or_default held) {
              timestamps = some (record {
                created = created_by (or_default held).timestamps now;
                modified = now;
                accessed = accessed_by (or_default held).timestamps now;
              });
            }))
        × (read_meta store changed table akey ≡ read_meta store inodes table akey)
        × (store.get changed other ≡ store.get inodes other)
  unfolding touch
  touch_lem inodes table akey now held other h storable ne =
      let key = inode_key table akey in
      let after_it = written (or_default held) now in
      let changed = store.insert key (encode after_it) inodes in
      let holds : Held changed key (some after_it) =
        (store.get-insert_same inodes key (encode after_it), storable) in
      (
        changed,
        rw (load_lem inodes key held h, touched-written (or_default held) now) refl,
        holds,
        read_meta_lem changed table akey (some after_it) holds
            ∙ sym (read_meta_lem inodes table akey held h),
        store.get-insert_other inodes key other (encode after_it) ne,
      )

  -- The inode that a protected write stores.
  abbrev pub stamped : Inode → ℕ → Option ℕ → (List ℕ → List ℕ × List ℕ) → Inode
  stamped inode now owner seal =
      sealed (owned (touched inode now) owner) (seal (acl_bytes (owned (touched inode now) owner)))

  stamped-meta :
      (inode : Inode) (now : ℕ) (owner : Option ℕ) (seal : List ℕ → List ℕ × List ℕ)
      → meta_of (stamped inode now owner seal) ≡ (
        settled_acl inode.acl owner,
        some (seal (list_bytes (settled_acl inode.acl owner))).0,
        some (seal (list_bytes (settled_acl inode.acl owner))).1,
      )
  unfolding sealed
  stamped-meta inode now owner seal =
      let list_eq : (owned (touched inode now) owner).acl ≡ settled_acl inode.acl owner =
        owned-acl (touched inode now) owner
        ∙ ap (λ (m : Meta). settled_acl m.0 owner) (touched-meta inode now) in
      let bytes_eq : acl_bytes (owned (touched inode now) owner)
          ≡ list_bytes (settled_acl inode.acl owner) =
        acl_bytes-eq (owned (touched inode now) owner) ∙ ap list_bytes list_eq in
      ap₂ (λ (a : Option Acl) (b : List ℕ). (a, some (seal b).0, some (seal b).1)) list_eq bytes_eq

  -- A protected write keeps the access-control list that the a-node has, and gives one that has none
  -- the default list of its owner if there is an owner; both tags that it stores are those that `seal`
  -- computes over the encoding of that list; any other key is untouched.
  pub stamp_and_seal_lem :
      (inodes : store.Table) (table : Text) (akey : AKey) (now : ℕ) (owner : Option ℕ)
      (seal : List ℕ → List ℕ × List ℕ) (held : Option Inode) (other : List ℕ)
      → Held inodes (inode_key table akey) held
      → Storable (stamped (or_default held) now owner seal)
      → inode_key table akey ≢ other
      → (changed : store.Table) × (stamp_and_seal store inodes table akey now owner seal
          ≡ ok changed)
        × (read_meta store changed table akey
            ≡ ok (
              settled_acl (or_default held).acl owner,
              some (seal (list_bytes (settled_acl (or_default held).acl owner))).0,
              some (seal (list_bytes (settled_acl (or_default held).acl owner))).1,
            ))
        × (store.get changed other ≡ store.get inodes other)
  unfolding stamp_and_seal
  stamp_and_seal_lem inodes table akey now owner seal held other h storable ne =
      let key = inode_key table akey in
      let result = stamped (or_default held) now owner seal in
      let changed = store.insert key (encode result) inodes in
      (
        changed,
        rw (load_lem inodes key held h),
        read_meta_lem changed table akey (some result)
              (store.get-insert_same inodes key (encode result), storable)
            ∙ ap ok (stamped-meta (or_default held) now owner seal),
        store.get-insert_other inodes key other (encode result) ne,
      )

  -- Recording an access sets the access time of the a-node's inode to the later of the two, so that it
  -- never goes back, and keeps all else of it; an inode without times gets all three, and an a-node
  -- without an inode gets none. Other keys are untouched. The table holds no inode for the a-node or the
  -- encoding of a valid one.
  pub bump_access_lem :
      (inodes : store.Table) (table : Text) (akey : AKey) (when : ℕ) (held : Option Inode)
      (other : List ℕ)
      → Held inodes (inode_key table akey) held
      → inode_key table akey ≢ other
      → (changed : store.Table) × (bump_access store inodes table akey when ≡ ok changed)
        × (store.get changed (inode_key table akey) ≡ visited when held)
        × (store.get changed other ≡ store.get inodes other)
  unfolding bump_access
  bump_access_lem inodes table akey when none other h ne =
      (inodes, rw (bump_access, h) refl, h, refl)
  bump_access_lem inodes table akey when (some inode) other h ne = settle (bumped inode when) refl
    where
      read : decode (encode inode) ≡ ok inode
      read = decode_inode-encode inode h.1.0 h.1.1

      settle :
          (o : Option Inode)
          → bumped inode when ≡ o
          → (changed : store.Table) × (bump_access store inodes table akey when ≡ ok changed)
            × (store.get changed (inode_key table akey) ≡ visited when (some inode))
            × (store.get changed other ≡ store.get inodes other)
      settle none e = (
        inodes,
        rw (bump_access, h.0, read, ◌>>=◌, e) refl,
        h.0 ∙ ap (λ i. some (encode i)) (bumped-none inode when e),
        refl,
      )
      settle (some result) e = (
        store.insert (inode_key table akey) (encode result) inodes,
        rw (bump_access, h.0, read, ◌>>=◌, e) refl,
        store.get-insert_same inodes (inode_key table akey) (encode result)
            ∙ ap (λ i. some (encode i)) (bumped-some inode result when e),
        store.get-insert_other inodes (inode_key table akey) other (encode result) ne,
      )
