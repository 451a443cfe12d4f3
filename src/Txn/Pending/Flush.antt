-- ===== src/Txn/Pending/Flush.antt =====
-- A flush writes the pending entries, all and no others.
use arbordb.Common.{
  ℕ, suc, ◌≡◌, refl, sym, ap, ◌∙◌, List, [], ◌∷◌, Option, none, some, Bool-cases, inl, inr, Result,
  ok, err, ◌==◌, ltb, if◌then◌else◌, arith,
}
use arbordb.Common.Numbered
use arbordb.Codec.Dir.{Children, encode_dir}
use arbordb.Engine.Entry.{dir_entry}
use arbordb.Key.{AKey}
use arbordb.Txn.Buffer.{take}
use arbordb.Txn.Buffer.Laws.{dir_get_lem, file_get_lem}
use arbordb.Txn.Context.{Engine, Context, Action, ◌>>=◌, ◌>>◌, pure, put_entry}
use arbordb.Txn.Pending.{pending, pending_of, first_of, IsSound}
use arbordb.Txn.Pending.Puts.{put_entry_lem}
use arbordb.Txn.Tree.{flush_dirs, flush_files, flush_buffered, flush_taken, commit_flush}

-- What is under a key once the list is written over a table.
abbrev over : Option (List ℕ) → Option (List ℕ) → Option (List ℕ)
over none stored = stored
over (some entry) stored = some entry

abbrev image {ℓ} : {V : Type ℓ} → (V → List ℕ) → Option V → Option (List ℕ)
image f none = none
image f (some v) = some (f v)

abbrev blob_of : Children → List ℕ
blob_of children = dir_entry (encode_dir children)

abbrev same_bytes : List ℕ → List ℕ
same_bytes entry = entry

module _ {ℓ} {V : Type ℓ} (f : V → List ℕ) where
  over-cons :
      (k : AKey) (v : V) (rest : List (AKey × V)) (stored : Option (List ℕ)) (j : AKey)
      → Numbered.AscendsAbove (suc k) rest
      → over (image f (Numbered.get rest j)) (if k == j then some (f v) else stored)
        ≡ over (image f (Numbered.get ((k, v) ∷ rest) j)) stored
  unfolding Numbered.get
  over-cons k v rest stored j up = elim (Bool-cases (k == j)) [
    | inl same ↦
        let e : k ≡ j = ground (arith, same) in
        let absent = Numbered.get-below (suc k) j rest (omega arith) up in
        ground (arith, same, absent)
    | inr differ ↦ elim (Bool-cases (ltb j k)) [
      | inl below ↦
          let absent = Numbered.get-below (suc k) j rest (ground (arith, below)) up in
          ground (arith, below, differ, absent)
      | inr above ↦ ground (arith, above, differ)
    ]
  ]

stored-insert :
    (g : Engine) (k : AKey) (entry : List ℕ) (t : g.data_store.Table) (j : AKey)
    → g.data_store.get (g.data_store.insert k entry t) j
      ≡ (if k == j then some entry else g.data_store.get t j)
stored-insert g k entry t j = elim (Bool-cases (k == j)) [
  | inl same ↦
      let e : k ≡ j = ground (arith, same) in
      rw same (
        ap (g.data_store.get (g.data_store.insert k entry t)) (sym e)
        ∙ g.data_store.get-insert_same t k entry)
  | inr differ ↦
      rw differ (g.data_store.get-insert_other t k j entry (λ e. ground (arith, differ, e)))
]

settled :
    (dir : Option Children) (file stored : Option (List ℕ))
    → ((children : Children) → dir ≡ some children → file ≡ none)
    → over (image same_bytes file) (over (image blob_of dir) stored) ≡ first_of dir file stored
unfolding first_of
settled none none stored apart = refl
settled none (some entry) stored apart = refl
settled (some children) file stored apart = rw (apart children refl)

module _ {g : Engine} where
  bind_ok :
      (m n : Action g (Unit {0})) (c c' : Context g)
      → (m >> n) c ≡ (ok tt, c')
      → n (m c).1 ≡ (ok tt, c')
  unfolding ◌>>◌ ◌>>=◌
  bind_ok m n c c' h = go (m c) h
    where
      next : Result (Unit {0}) × Context g → Result (Unit {0}) × Context g
      next r = elim r.0 [ ok done ↦ n r.1 | err e ↦ (err e, r.1) ]

      go : (r : Result (Unit {0}) × Context g) → next r ≡ (ok tt, c') → n r.1 ≡ (ok tt, c')
      go (ok done, d) h = h
      go (err e, d) h = absurd (clash (ap (λ (p : Result (Unit {0}) × Context g). p.0) h))
        where
          clash : ◌≡◌ {A = Result (Unit {0})} (err e) (ok tt) → ⊥
          clash f = cc

  flush_files_lem :
      (bound : ℕ) (files : List (AKey × List ℕ)) (c c' : Context g)
      → Numbered.AscendsAbove bound files
      → flush_files files c ≡ (ok tt, c')
      → (j : AKey)
      → g.data_store.get c'.entries j
        ≡ over (image same_bytes (Numbered.get files j)) (g.data_store.get c.entries j)
  unfolding flush_files Numbered.get pure
  flush_files_lem bound [] c c' up h j =
      ap (λ (p : Result (Unit {0}) × Context g). g.data_store.get p.1.entries j) (sym h)
  flush_files_lem bound ((k, entry) ∷ rest) c c' up h j =
      let later = bind_ok (put_entry k entry) (flush_files rest) c c' h in
      flush_files_lem (suc k) rest (put_entry k entry c).1 c' up.1 later j
      ∙ rw ((put_entry_lem k entry c).1, stored-insert g k entry c.entries j)
          (over-cons same_bytes k entry rest (g.data_store.get c.entries j) j up.1)

  flush_dirs_lem :
      (bound : ℕ) (dirs : List (AKey × Children)) (c c' : Context g)
      → Numbered.AscendsAbove bound dirs
      → flush_dirs dirs c ≡ (ok tt, c')
      → (j : AKey)
      → g.data_store.get c'.entries j
        ≡ over (image blob_of (Numbered.get dirs j)) (g.data_store.get c.entries j)
  unfolding flush_dirs Numbered.get pure
  flush_dirs_lem bound [] c c' up h j =
      ap (λ (p : Result (Unit {0}) × Context g). g.data_store.get p.1.entries j) (sym h)
  flush_dirs_lem bound ((k, cs) ∷ rest) c c' up h j =
      let later = bind_ok (put_entry k (dir_entry (encode_dir cs))) (flush_dirs rest) c c' h in
      flush_dirs_lem (suc k) rest (put_entry k (dir_entry (encode_dir cs)) c).1 c' up.1 later j
      ∙ rw
          (
            (put_entry_lem k (dir_entry (encode_dir cs)) c).1,
            stored-insert g k (dir_entry (encode_dir cs)) c.entries j,
          )
          (over-cons blob_of k cs rest (g.data_store.get c.entries j) j up.1)

  bind_head :
      (m n : Action g (Unit {0})) (c c' : Context g)
      → (m >> n) c ≡ (ok tt, c')
      → m c ≡ (ok tt, (m c).1)
  unfolding ◌>>◌ ◌>>=◌
  bind_head m n c c' h = go (m c) h
    where
      next : Result (Unit {0}) × Context g → Result (Unit {0}) × Context g
      next r = elim r.0 [ ok done ↦ n r.1 | err e ↦ (err e, r.1) ]

      go : (r : Result (Unit {0}) × Context g) → next r ≡ (ok tt, c') → r ≡ (ok tt, r.1)
      go (ok tt, d) h = refl
      go (err e, d) h = absurd (clash (ap (λ (p : Result (Unit {0}) × Context g). p.0) h))
        where
          clash : ◌≡◌ {A = Result (Unit {0})} (err e) (ok tt) → ⊥
          clash f = cc

  flush_buffered_lem :
      (dirs : List (AKey × Children)) (files : List (AKey × List ℕ)) (c c' : Context g)
      → Numbered.Ascends dirs
      → Numbered.Ascends files
      → flush_buffered dirs files c ≡ (ok tt, c')
      → (j : AKey)
      → g.data_store.get c'.entries j
        ≡ over
            (image same_bytes (Numbered.get files j))
            (over (image blob_of (Numbered.get dirs j)) (g.data_store.get c.entries j))
  unfolding flush_buffered
  flush_buffered_lem dirs files c c' up down h j =
      let later = bind_ok (flush_dirs dirs) (flush_files files) c c' h in
      let first = bind_head (flush_dirs dirs) (flush_files files) c c' h in
      flush_files_lem 0 files (flush_dirs dirs c).1 c' down later j
      ∙ ap (over (image same_bytes (Numbered.get files j)))
          (flush_dirs_lem 0 dirs c (flush_dirs dirs c).1 up first j)

  flush_taken_lem :
      (dirs : List (AKey × Children)) (files : List (AKey × List ℕ)) (c c' : Context g)
      → Numbered.Ascends dirs
      → Numbered.Ascends files
      → flush_taken dirs files c ≡ (ok tt, c')
      → (j : AKey)
      → g.data_store.get c'.entries j
        ≡ over
            (image same_bytes (Numbered.get files j))
            (over (image blob_of (Numbered.get dirs j)) (g.data_store.get c.entries j))
  unfolding flush_taken pure Numbered.get
  flush_taken_lem [] [] c c' up down h j =
      ap (λ (p : Result (Unit {0}) × Context g). g.data_store.get p.1.entries j) (sym h)
  flush_taken_lem [] (file ∷ files) c c' up down h j =
      flush_buffered_lem [] (file ∷ files) c c' up down h j
  flush_taken_lem (dir ∷ dirs) files c c' up down h j =
      flush_buffered_lem (dir ∷ dirs) files c c' up down h j

  flushed :
      (c c' : Context g)
      → IsSound c
      → commit_flush c ≡ (ok tt, c')
      → (k : AKey) → g.data_store.get c'.entries k ≡ pending c k
  unfolding commit_flush take pending pending_of
  flushed c c' sound h k =
      flush_taken_lem c.dirs.dirs c.dirs.files _ c' sound.consistent.dirs_ascend
        sound.consistent.files_ascend h k
      ∙ settled (Numbered.get c.dirs.dirs k) (Numbered.get c.dirs.files k)
          (g.data_store.get c.entries k) (sound.consistent.apart k)
      ∙ rw (dir_get_lem c.dirs k sound.consistent, file_get_lem c.dirs k sound.consistent) refl

  -- When the flush of a commit succeeds, the table holds under every a-node exactly its pending entry.
  pub commit_flush_lem :
      (c : Context g) (k : AKey)
      → IsSound c
      → (commit_flush c).0 ≡ ok tt
      → g.data_store.get (commit_flush c).1.entries k ≡ pending c k
  commit_flush_lem c k sound h =
      flushed c (commit_flush c).1 sound (ap (λ (r : Result (Unit {0})). (r, (commit_flush c).1)) h)
        k
