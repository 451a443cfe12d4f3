-- ===== src/Txn/Pending/Puts.antt =====
-- What a direct write and a removal do to the pending entries.
use arbordb.Common.{
  ℕ, ◌≡◌, ◌≢◌, refl, sym, subst, ap, ap₂, ◌∙◌, List, Option, none, some, Bool, Bool-cases, true,
  false, inl, inr, Result, ok, err, ◌==◌, if◌then◌else◌, arith,
}
use arbordb.Common.Numbered
use arbordb.Codec.Dir.{Children}
use arbordb.Data.Utf8.{Text}
use arbordb.Key.{AKey}
use arbordb.Perm.Authorize.{Principal}
use arbordb.Txn.Buffer.{WriteBuffer, dir_get, file_get, file_forget, forget, drop_dir}
use arbordb.Txn.Buffer.Laws.{IsConsistent}
use arbordb.Txn.Buffer.Gets.{
  dir_get-file_forget, file_get-file_forget, dir_get-forget, file_get-forget,
  file_forget-IsConsistent, forget-IsConsistent,
}
use arbordb.Txn.Context.{
  Engine, Context, ◌>>=◌, ◌>>◌, modify, on_dirs, on_inodes, invalidate_verified, stamp_as, stamp,
  put_entry, remove_entry,
}
use arbordb.Txn.Pending.{pending, pending_of, first_of, IsSound, Writable}

pub pending_of_lem :
    (g : Engine) (b b' : WriteBuffer) (t t' : g.data_store.Table) (j : AKey)
    → dir_get b' j ≡ dir_get b j
    → file_get b' j ≡ file_get b j
    → g.data_store.get t' j ≡ g.data_store.get t j
    → pending_of g b' t' j ≡ pending_of g b t j
unfolding pending_of
pending_of_lem g b b' t t' j d f e = rw (d, f, e)

file_forget-buffering : (k : AKey) (b : WriteBuffer) → (file_forget k b).buffering ≡ b.buffering
unfolding file_forget
file_forget-buffering k b = go b.files_dirty
  where
    go :
        (d : Bool)
        → (let left : WriteBuffer =
              if d then record b { files = Numbered.remove k b.files } else b in
            left.buffering)
          ≡ b.buffering
    go true = refl
    go false = refl

forget-buffering : (k : AKey) (b : WriteBuffer) → (forget k b).buffering ≡ b.buffering
unfolding forget
forget-buffering k b = file_forget-buffering k (drop_dir k b) ∙ go b.dirs_dirty
  where
    go :
        (d : Bool)
        → (let left : WriteBuffer = if d then record b { dirs = Numbered.remove k b.dirs } else b in
            left.buffering)
          ≡ b.buffering
    go true = refl
    go false = refl

module _ {g : Engine} where
  pub on_inodes_lem :
      (f : g.inode_store.Table → Result g.inode_store.Table) (c : Context g)
      → ((on_inodes f c).1.dirs ≡ c.dirs)
        × ((on_inodes f c).1.entries ≡ c.entries)
        × ((on_inodes f c).1.drawn ≡ c.drawn)
  unfolding on_inodes
  on_inodes_lem f c = go (f c.inodes)
    where
      go :
          (r : Result g.inode_store.Table)
          → (let s : Result (Unit {0}) × Context g = elim r [
            | ok t ↦ (ok tt, record c { inodes = t })
            | err e ↦ (err e, c)
          ] in
              (s.1.dirs ≡ c.dirs) × (s.1.entries ≡ c.entries) × (s.1.drawn ≡ c.drawn))
      go (ok t) = (refl, refl, refl)
      go (err e) = (refl, refl, refl)

  stamp_as_lem :
      (p : Principal) (table : Text) (now : ℕ) (k : AKey) (entry : List ℕ) (c : Context g)
      → ((stamp_as p table now k entry c).1.dirs ≡ c.dirs)
        × ((stamp_as p table now k entry c).1.entries ≡ c.entries)
        × ((stamp_as p table now k entry c).1.drawn ≡ c.drawn)
  unfolding stamp_as
  stamp_as_lem (Principal.user session) table now k entry c = on_inodes_lem _ c
  stamp_as_lem (Principal.guest pubkey) table now k entry c = on_inodes_lem _ c
  stamp_as_lem Principal.unrestricted table now k entry c = on_inodes_lem _ c

  -- The tables and the buffer after a write, whether or not its inode could be stamped.
  pub put_entry_lem :
      (k : AKey) (entry : List ℕ) (c : Context g)
      → ((put_entry k entry c).1.dirs ≡ file_forget k c.dirs)
        × ((put_entry k entry c).1.entries ≡ g.data_store.insert k entry c.entries)
        × ((put_entry k entry c).1.drawn ≡ c.drawn)
  unfolding put_entry ◌>>=◌ ◌>>◌ modify on_dirs invalidate_verified stamp
  put_entry_lem k entry c = stamp_as_lem c.principal c.table c.now k entry _

  pub pending_eq :
      (c c' : Context g) (j : AKey)
      → c'.dirs ≡ c.dirs
      → c'.entries ≡ c.entries
      → pending c' j ≡ pending c j
  unfolding pending
  pending_eq c c' j d e = ap₂ (λ b t. pending_of g b t j) d e

  pub pending-put_entry :
      (k : AKey) (entry : List ℕ) (c : Context g) (j : AKey)
      → IsConsistent c.dirs
      → dir_get c.dirs k ≡ none
      → pending (put_entry k entry c).1 j ≡ (if k == j then some entry else pending c j)
  unfolding pending pending_of first_of
  pending-put_entry k entry c j h clear =
      ap₂ (λ b t. pending_of g b t j) (put_entry_lem k entry c).0 (put_entry_lem k entry c).1
      ∙ elim (Bool-cases (k == j)) [
        | inl same ↦ rw same (here (ground (arith, same)))
        | inr differ ↦ rw differ (other differ (λ e. ground (arith, differ, e)))
      ]
    where
      here :
          k ≡ j
          → pending_of g (file_forget k c.dirs) (g.data_store.insert k entry c.entries) j
            ≡ some entry
      here e = rw (← e) (
          table (dir_get-file_forget k c.dirs k ∙ clear)
            (file_get-file_forget k c.dirs h k ∙ if_same))
        where
          if_same : ◌≡◌ {A = Option (List ℕ)} (if k == k then none else file_get c.dirs k) none
          if_same = ground arith

          table :
              dir_get (file_forget k c.dirs) k ≡ none
              → file_get (file_forget k c.dirs) k ≡ none
              → pending_of g (file_forget k c.dirs) (g.data_store.insert k entry c.entries) k
                ≡ some entry
          table d f = rw (d, f) (g.data_store.get-insert_same c.entries k entry)

      other :
          (k == j) ≡ false
          → k ≢ j
          → pending_of g (file_forget k c.dirs) (g.data_store.insert k entry c.entries) j
            ≡ pending_of g c.dirs c.entries j
      other differ ne =
          pending_of_lem g c.dirs (file_forget k c.dirs) c.entries
            (g.data_store.insert k entry c.entries) j (dir_get-file_forget k c.dirs j)
            (file_get-file_forget k c.dirs h j ∙ rw differ)
            (g.data_store.get-insert_other c.entries k j entry ne)

  pub put_entry-IsSound :
      (k : AKey) (entry : List ℕ) (c : Context g) → IsSound c → IsSound (put_entry k entry c).1
  put_entry-IsSound k entry c h = record {
    consistent = subst IsConsistent (sym same) (file_forget-IsConsistent k c.dirs h.consistent);
    direct = λ off j.
        ap (λ b. dir_get b j) same
        ∙ dir_get-file_forget k c.dirs j
        ∙ h.direct (sym (file_forget-buffering k c.dirs) ∙ sym (ap (λ b. b.buffering) same) ∙ off)
            j;
    writable = λ j cs e.
        h.writable j cs
          (sym (dir_get-file_forget k c.dirs j) ∙ ap (λ b. dir_get b j) (sym same) ∙ e);
  }
    where
      same : (put_entry k entry c).1.dirs ≡ file_forget k c.dirs
      same = (put_entry_lem k entry c).0

  pub remove_entry_ok : (k : AKey) (c : Context g) → (remove_entry k c).0 ≡ ok tt
  unfolding remove_entry ◌>>=◌ ◌>>◌ modify on_dirs invalidate_verified
  remove_entry_ok k c = refl

  remove_entry_parts :
      (k : AKey) (c : Context g)
      → ((remove_entry k c).1.dirs ≡ forget k c.dirs)
        × ((remove_entry k c).1.entries ≡ g.data_store.remove k c.entries)
  unfolding remove_entry ◌>>=◌ ◌>>◌ modify on_dirs invalidate_verified
  remove_entry_parts k c = (refl, refl)

  pub pending-remove_entry :
      (k : AKey) (c : Context g) (j : AKey)
      → IsConsistent c.dirs
      → pending (remove_entry k c).1 j ≡ (if k == j then none else pending c j)
  unfolding pending
  pending-remove_entry k c j h =
      ap₂ (λ b t. pending_of g b t j) (remove_entry_parts k c).0 (remove_entry_parts k c).1
      ∙ elim (Bool-cases (k == j)) [
        | inl same ↦ rw same (here same (ground (arith, same)))
        | inr differ ↦ rw differ (
            pending_of_lem g c.dirs (forget k c.dirs) c.entries (g.data_store.remove k c.entries) j
              (dir_get-forget k c.dirs j h ∙ rw differ) (file_get-forget k c.dirs j h ∙ rw differ)
              (g.data_store.get-remove_other c.entries k j (λ e. ground (arith, differ, e))))
      ]
    where
      gone :
          (t : g.data_store.Table) (b : WriteBuffer)
          → dir_get b j ≡ none
          → file_get b j ≡ none
          → g.data_store.get t j ≡ none
          → pending_of g b t j ≡ none
      gone t b d f e = unfold pending_of first_of in rw (d, f, e)

      here :
          (k == j) ≡ true
          → k ≡ j
          → pending_of g (forget k c.dirs) (g.data_store.remove k c.entries) j ≡ none
      here same e =
          gone (g.data_store.remove k c.entries) (forget k c.dirs)
            (dir_get-forget k c.dirs j h ∙ rw same) (file_get-forget k c.dirs j h ∙ rw same)
            (ap (g.data_store.get (g.data_store.remove k c.entries)) (sym e)
              ∙ g.data_store.get-remove_same c.entries k)

  pub remove_entry-IsSound : (k : AKey) (c : Context g) → IsSound c → IsSound (remove_entry k c).1
  remove_entry-IsSound k c h = record {
    consistent =
        subst IsConsistent (sym (remove_entry_parts k c).0)
          (forget-IsConsistent k c.dirs h.consistent);
    direct = λ off j.
        ap (λ b. dir_get b j) (remove_entry_parts k c).0
        ∙ dir_get-forget k c.dirs j h.consistent
        ∙ absent j (
            h.direct
              (sym (forget-buffering k c.dirs)
                ∙ sym (ap (λ b. b.buffering) (remove_entry_parts k c).0)
                ∙ off)
              j);
    writable = λ j cs e. kept j cs (
        sym (dir_get-forget k c.dirs j h.consistent)
        ∙ ap (λ b. dir_get b j) (sym (remove_entry_parts k c).0)
        ∙ e);
  }
    where
      absent :
          (j : AKey)
          → dir_get c.dirs j ≡ none
          → ◌≡◌ {A = Option Children} (if k == j then none else dir_get c.dirs j) none
      absent j e = ground (arith, e)

      kept :
          (j : AKey) (cs : Children)
          → (if k == j then none else dir_get c.dirs j) ≡ some cs
          → Writable cs
      kept j cs e = elim (Bool-cases (k == j)) [
        | inl same ↦ absurd (clash (rw same at e))
        | inr differ ↦ h.writable j cs (rw differ at e)
      ]
        where
          clash : ◌≡◌ {A = Option Children} none (some cs) → ⊥
          clash e = cc
