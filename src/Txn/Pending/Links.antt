-- ===== src/Txn/Pending/Links.antt =====
-- What a change of a directory's children does to the pending entries.
use arbordb.Common.{
  ℕ, ◌≡◌, refl, sym, subst, ap, ◌∙◌, List, Option, none, some, Bool, Bool-cases, true, false, inl,
  inr, Result, ok, ◌==◌, if◌then◌else◌,
}
use arbordb.Codec.Dir.{Children, encode_dir}
use arbordb.Data.Utf8.{Text}
use arbordb.Engine.Entry.{dir_entry, children_in, map_some}
use arbordb.Inode.Functions
use arbordb.Key.{AKey, root}
use arbordb.Perm.Authorize.{Principal}
use arbordb.Txn.Buffer.{dir_get, dir_put, file_get, bump_structure}
use arbordb.Txn.Buffer.Laws.{IsConsistent, bump_structure-IsConsistent}
use arbordb.Txn.Buffer.Gets.{dir_get-dir_put, file_get-dir_put}
use arbordb.Txn.Children.{insert, remove}
use arbordb.Txn.Context.{
  Engine, Context, Action, ◌>>=◌, ◌>>◌, pure, reads, on_dirs, on_inodes, put_entry,
}
use arbordb.Txn.Context.Steps.{bind_succeeds, then_succeeds}
use arbordb.Txn.Pending.{pending, pending_of, pending_dir, first_of, IsSound}
use arbordb.Txn.Pending.Keeps.{Same, Keeps-dir_children}
use arbordb.Txn.Pending.Puts.{pending-put_entry, pending_eq, on_inodes_lem}
use arbordb.Txn.Pending.Reads.{held, dir_children_lem, children_in-encode_dir}
use arbordb.Txn.Pending.Walk.{pending-Same, IsSound-Same}
use arbordb.Txn.Reads.{
  dir_children, dir_change, dir_link, dir_unlink, default_acl_as, stamp_new_dir_acl, or_empty,
}
use arbordb.Txn.Tree.{put_dir, link_child, unlink_child}

-- The children that an entry, or none, lists.
abbrev pub Lists : Option (List ℕ) → Children → Type 0
Lists entry children =
    (r : Option Children) × (held children_in entry ≡ ok r) × (or_empty r ≡ children)

abbrev pub as_dir : Children → Option (List ℕ)
as_dir children = some (dir_entry (encode_dir children))

module _ {g : Engine} where
  pending-dir_put :
      (k : AKey) (cs : Children) (c : Context g) (j : AKey)
      → IsConsistent c.dirs
      → pending (record c { dirs = dir_put k cs c.dirs }) j
        ≡ (if k == j then as_dir cs else pending c j)
  unfolding pending pending_of first_of
  pending-dir_put k cs c j h = elim (Bool-cases (k == j)) [
    | inl same ↦ rw (dir_get-dir_put k c.dirs h cs j, same) refl
    | inr differ ↦ rw (dir_get-dir_put k c.dirs h cs j, file_get-dir_put k cs c.dirs j, differ) refl
  ]

  default_acl_as_lem :
      (p : Principal) (table : Text) (k : AKey) (c : Context g)
      → ((default_acl_as p table k c).1.dirs ≡ c.dirs)
        × ((default_acl_as p table k c).1.entries ≡ c.entries)
  unfolding default_acl_as pure
  default_acl_as_lem (Principal.user session) table k c = go (k == root)
    where
      step : Bool → Action g (Unit {0})
      step b =
          if b
          then pure tt
          else on_inodes (λ t. Functions.set_default_acl g.inode_store t table k session.uid)

      go : (b : Bool) → ((step b c).1.dirs ≡ c.dirs) × ((step b c).1.entries ≡ c.entries)
      go true = (refl, refl)
      go false =
          let (d, e, rest) =
            on_inodes_lem (λ t. Functions.set_default_acl g.inode_store t table k session.uid) c in
          (d, e)
  default_acl_as_lem (Principal.guest pubkey) table k c = (refl, refl)
  default_acl_as_lem Principal.unrestricted table k c = (refl, refl)

  stamp_new_dir_acl_lem :
      (k : AKey) (c : Context g)
      → ((stamp_new_dir_acl k c).1.dirs ≡ c.dirs) × ((stamp_new_dir_acl k c).1.entries ≡ c.entries)
  unfolding stamp_new_dir_acl
  stamp_new_dir_acl_lem k c = default_acl_as_lem c.principal c.table k c

  put_cached_lem :
      (k : AKey) (cs : Children) (c : Context g) (j : AKey)
      → IsSound c
      → ((stamp_new_dir_acl k >> on_dirs (dir_put k cs)) c).0 ≡ ok tt
      → pending ((stamp_new_dir_acl k >> on_dirs (dir_put k cs)) c).1 j
        ≡ (if k == j then as_dir cs else pending c j)
  unfolding on_dirs
  put_cached_lem k cs c j sound h =
      let (c', first, whole, last) =
        then_succeeds (stamp_new_dir_acl k) (on_dirs (dir_put k cs)) c tt h in
      ap (λ (r : Result (Unit {0}) × Context g). pending r.1 j) whole
      ∙ put c'
          (ap (λ (r : Result (Unit {0}) × Context g). r.1.dirs) (sym first)
            ∙ (stamp_new_dir_acl_lem k c).0)
          (ap (λ (r : Result (Unit {0}) × Context g). r.1.entries) (sym first)
            ∙ (stamp_new_dir_acl_lem k c).1)
    where
      put :
          (c' : Context g)
          → c'.dirs ≡ c.dirs
          → c'.entries ≡ c.entries
          → pending (on_dirs (dir_put k cs) c').1 j ≡ (if k == j then as_dir cs else pending c j)
      put c' d e =
          pending_eq (record c { dirs = dir_put k cs c.dirs })
            (record c' { dirs = dir_put k cs c'.dirs }) j (ap (dir_put k cs) d) e
          ∙ pending-dir_put k cs c j sound.consistent

  pub put_dir_lem :
      (k : AKey) (cs : Children) (c : Context g) (j : AKey)
      → IsSound c
      → (put_dir k cs c).0 ≡ ok tt
      → pending (put_dir k cs c).1 j ≡ (if k == j then as_dir cs else pending c j)
  unfolding put_dir ◌>>=◌ reads
  put_dir_lem k cs c j sound h = go c.dirs.buffering refl h
    where
      step : Bool → Action g (Unit {0})
      step b =
          if b
          then (stamp_new_dir_acl k >> on_dirs (dir_put k cs))
          else put_entry k (dir_entry (encode_dir cs))

      go :
          (b : Bool)
          → c.dirs.buffering ≡ b
          → (step b c).0 ≡ ok tt
          → pending (step b c).1 j ≡ (if k == j then as_dir cs else pending c j)
      go true on h = put_cached_lem k cs c j sound h
      go false off h =
          pending-put_entry k (dir_entry (encode_dir cs)) c j sound.consistent (sound.direct off k)

  -- The children of a directory, with what they are listed in.
  listed :
      (k : AKey) (c c' : Context g) (cs : Children)
      → IsSound c
      → dir_children k c ≡ (ok cs, c')
      → Same c c' × Lists (pending c k) cs
  listed k c c' cs sound e = (
    record {
      dirs_eq = ap (λ (r : Result Children × Context g). r.1.dirs) (sym e) ∙ same.dirs_eq;
      entries_eq = ap (λ (r : Result Children × Context g). r.1.entries) (sym e) ∙ same.entries_eq;
      inodes_eq = ap (λ (r : Result Children × Context g). r.1.inodes) (sym e) ∙ same.inodes_eq;
      drawn_eq = ap (λ (r : Result Children × Context g). r.1.drawn) (sym e) ∙ same.drawn_eq;
    },
    dir_children_lem c sound k cs (ap (λ (r : Result Children × Context g). r.0) e),
  )
    where
      same : Same c (dir_children k c).1
      same = (Keeps-dir_children k).at c

  relink : AKey → (Children → Children) → Action g (Unit {0})
  unfolding dir_change
  relink parent change = do
    on_dirs bump_structure
    buffering ← reads (λ c. c.dirs.buffering)
    if buffering
        then dir_change parent change
        else (dir_children parent >>= λ map. put_dir parent (change map))

  -- The first context's children of a directory are changed in the second, and nothing else is.
  abbrev pub Relinked : AKey → (Children → Children) → Context g → Context g → Type 0
  Relinked parent change c c' =
      (cs : Children) × Lists (pending c parent) cs
      × ((j : AKey) → pending c' j ≡ (if parent == j then as_dir (change cs) else pending c j))

  -- Whichever way the children are loaded, they are changed.
  loaded_lem :
      (parent : AKey) (change : Children → Children) (c : Context g)
      (put : Children → Action g (Unit {0}))
      → IsSound c
      → ((cs : Children) (c' : Context g) (j : AKey)
          → IsSound c'
          → (put cs c').0 ≡ ok tt
          → pending (put cs c').1 j ≡ (if parent == j then as_dir (change cs) else pending c' j))
      → ((dir_children parent >>= put) c).0 ≡ ok tt
      → Relinked parent change c ((dir_children parent >>= put) c).1
  loaded_lem parent change c put sound law h =
      let (cs, c', first, whole, last) = bind_succeeds (dir_children parent) put c tt h in
      let (same, lists) = listed parent c c' cs sound first in
      (
        cs,
        lists,
        λ j.
            ap (λ (r : Result (Unit {0}) × Context g). pending r.1 j) whole
            ∙ law cs c' j (IsSound-Same c c' same sound) last
            ∙ rw (pending-Same c c' same) refl,
      )

  dir_change_lem :
      (parent : AKey) (change : Children → Children) (c : Context g)
      → IsSound c
      → (dir_change parent change c).0 ≡ ok tt
      → Relinked parent change c (dir_change parent change c).1
  unfolding dir_change ◌>>=◌ reads on_dirs
  dir_change_lem parent change c sound h = go (dir_get c.dirs parent) refl h
    where
      put : Children → Action g (Unit {0})
      put cs = on_dirs (dir_put parent (change cs))

      step : Option Children → Action g (Unit {0})
      step o = elim o [ some children ↦ put children | none ↦ (dir_children parent >>= put) ]

      go :
          (o : Option Children)
          → dir_get c.dirs parent ≡ o
          → (step o c).0 ≡ ok tt
          → Relinked parent change c (step o c).1
      go none e h =
          loaded_lem parent change c put sound
            (λ cs c' j sound' ok_put. pending-dir_put parent (change cs) c' j sound'.consistent) h
      go (some cs) e h = (
        cs,
        (
          some cs,
          ap (held children_in) (pending_dir c parent cs e)
              ∙ ap map_some (children_in-encode_dir cs (sound.writable parent cs e)),
          refl,
        ),
        λ j. pending-dir_put parent (change cs) c j sound.consistent,
      )

  bumped : Context g → Context g
  bumped c = record c { dirs = bump_structure c.dirs }

  bumped-pending : (c : Context g) → pending (bumped c) ≡ pending c
  unfolding bumped pending pending_of dir_get file_get bump_structure
  bumped-pending c = refl

  bumped-IsSound : (c : Context g) → IsSound c → IsSound (bumped c)
  unfolding bumped dir_get bump_structure
  bumped-IsSound c sound = record {
    consistent = bump_structure-IsConsistent c.dirs sound.consistent;
    direct = sound.direct;
    writable = sound.writable;
  }

  relink_lem :
      (parent : AKey) (change : Children → Children) (c : Context g)
      → IsSound c
      → (relink parent change c).0 ≡ ok tt
      → Relinked parent change c (relink parent change c).1
  unfolding relink ◌>>=◌ ◌>>◌ reads on_dirs bumped
  relink_lem parent change c sound h = go (bump_structure c.dirs).buffering h
    where
      step : Bool → Action g (Unit {0})
      step b =
          if b
          then dir_change parent change
          else (dir_children parent >>= λ map. put_dir parent (change map))

      at_first :
          (c' : Context g) → Relinked parent change (bumped c) c' → Relinked parent change c c'
      at_first c' h =
          subst
            (λ f.
              (cs : Children) × Lists (f parent) cs
              × ((j : AKey) → pending c' j ≡ (if parent == j then as_dir (change cs) else f j)))
            (bumped-pending c) h

      go :
          (b : Bool)
          → (step b (bumped c)).0 ≡ ok tt
          → Relinked parent change c (step b (bumped c)).1
      go true h = at_first _ (dir_change_lem parent change (bumped c) (bumped-IsSound c sound) h)
      go false h = at_first _ (
          loaded_lem parent change (bumped c) (λ map. put_dir parent (change map))
            (bumped-IsSound c sound)
            (λ cs c' j ok_sound. put_dir_lem parent (change cs) c' j ok_sound) h)

  -- Linking a name, with the cache or without, adds it to the children that the parent's pending entry
  -- lists, or replaces its child, and changes no other pending entry.
  pub link_child_lem :
      (parent : AKey) (name : Text) (child : AKey) (c : Context g)
      → IsSound c
      → (link_child parent name child c).0 ≡ ok tt
      → Relinked parent (insert name child) c (link_child parent name child c).1
  unfolding link_child dir_link relink
  link_child_lem parent name child c sound h = relink_lem parent (insert name child) c sound h

  -- Unlinking a name removes it from the children that the parent's pending entry lists, and changes no
  -- other pending entry.
  pub unlink_child_lem :
      (parent : AKey) (name : Text) (c : Context g)
      → IsSound c
      → (unlink_child parent name c).0 ≡ ok tt
      → Relinked parent (remove name) c (unlink_child parent name c).1
  unfolding unlink_child dir_unlink relink
  unlink_child_lem parent name c sound h = relink_lem parent (remove name) c sound h
