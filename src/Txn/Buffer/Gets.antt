-- ===== src/Txn/Buffer/Gets.antt =====
-- What is read in the buffer after each change of it.
use arbordb.Common.{
  ℕ, ◌≡◌, refl, ◌∙◌, List, Option, none, some, Bool, Bool-cases, true, false, inl, inr, ◌==◌,
  if◌then◌else◌, arith,
}
use arbordb.Common.Numbered
use arbordb.Codec.Dir.{Children}
use arbordb.Key.{AKey}
use arbordb.Txn.Buffer.{
  WriteBuffer, dir_get, dir_put, file_get, file_put, file_forget, forget, drop_dir,
}
use arbordb.Txn.Buffer.Laws.{IsConsistent, dir_get_lem, file_get_lem}

module _ {ℓ} {V : Type ℓ} where
  get-insert :
      (k j : ℕ) (v : V) (m : List (ℕ × V))
      → Numbered.Ascends m
      → Numbered.get (Numbered.insert k v m) j ≡ (if k == j then some v else Numbered.get m j)
  get-insert k j v m up = elim (Bool-cases (k == j)) [
    | inl same ↦
        let s : k ≡ j = ground (arith, same) in rw same (rw (← s) (Numbered.get-insert_same k v m))
    | inr differ ↦
        rw differ (Numbered.get-insert_other 0 k j v m (λ s. ground (arith, differ, s)) up)
  ]

  get-remove :
      (k j : ℕ) (m : List (ℕ × V))
      → Numbered.Ascends m
      → Numbered.get (Numbered.remove k m) j ≡ (if k == j then none else Numbered.get m j)
  get-remove k j m up = elim (Bool-cases (k == j)) [
    | inl same ↦
        let s : k ≡ j = ground (arith, same) in
        rw same (rw (← s) (Numbered.get-remove_same 0 k m up))
    | inr differ ↦ rw differ (Numbered.get-remove_other 0 k j m (λ s. ground (arith, differ, s)) up)
  ]

module _ (k : AKey) (b : WriteBuffer) (h : IsConsistent b) where
  pub dir_get-dir_put :
      (cs : Children) (j : AKey)
      → dir_get (dir_put k cs b) j ≡ (if k == j then some cs else dir_get b j)
  dir_get-dir_put cs j =
      rw (dir_get_lem b j h) (unfold dir_get dir_put in get-insert k j cs b.dirs h.dirs_ascend)

  pub file_get-file_put :
      (entry : List ℕ) (j : AKey)
      → file_get (file_put k entry b) j ≡ (if k == j then some entry else file_get b j)
  file_get-file_put entry j =
      rw (file_get_lem b j h)
        (unfold file_get file_put in get-insert k j entry b.files h.files_ascend)

  pub file_get-file_forget :
      (j : AKey) → file_get (file_forget k b) j ≡ (if k == j then none else file_get b j)
  unfolding file_get file_forget
  file_get-file_forget j = elim (Bool-cases b.files_dirty) [
    | inl dirty ↦ rw dirty (get-remove k j b.files h.files_ascend)
    | inr clean ↦ rw clean (constant (k == j))
  ]
    where
      constant : (t : Bool) → ◌≡◌ {A = Option (List ℕ)} none (if t then none else none)
      constant true = refl
      constant false = refl

pub file_get-dir_put :
    (k : AKey) (cs : Children) (b : WriteBuffer) (j : AKey)
    → file_get (dir_put k cs b) j ≡ file_get b j
unfolding file_get dir_put
file_get-dir_put k cs b j = refl

pub dir_get-file_put :
    (k : AKey) (entry : List ℕ) (b : WriteBuffer) (j : AKey)
    → dir_get (file_put k entry b) j ≡ dir_get b j
unfolding dir_get file_put
dir_get-file_put k entry b j = refl

pub dir_get-file_forget :
    (k : AKey) (b : WriteBuffer) (j : AKey) → dir_get (file_forget k b) j ≡ dir_get b j
unfolding dir_get file_forget
dir_get-file_forget k b j = ground arith

pub file_forget-IsConsistent :
    (k : AKey) (b : WriteBuffer) → IsConsistent b → IsConsistent (file_forget k b)
unfolding file_forget
file_forget-IsConsistent k b h = go b.files_dirty refl
  where
    constant : (t : Bool) → ◌≡◌ {A = Option (List ℕ)} (if t then none else none) none
    constant true = refl
    constant false = refl

    go :
        (t : Bool)
        → b.files_dirty ≡ t
        → IsConsistent (if t then record b { files = Numbered.remove k b.files } else b)
    go true dirty = record {
      dirs_flag = h.dirs_flag;
      files_flag = λ e. absurd (cc);
      dirs_ascend = h.dirs_ascend;
      files_ascend = Numbered.remove-AscendsAbove 0 k b.files h.files_ascend;
      apart = λ j cs e.
          rw (get-remove k j b.files h.files_ascend) (rw (h.apart j cs e) (constant (k == j)));
    }
    go false clean = h

drop_dir-IsConsistent : (k : AKey) (b : WriteBuffer) → IsConsistent b → IsConsistent (drop_dir k b)
drop_dir-IsConsistent k b h = go b.dirs_dirty refl
  where
    gone :
        (j : AKey) (cs : Children)
        → (k == j) ≡ true
        → Numbered.get (Numbered.remove k b.dirs) j ≡ some cs
        → ⊥
    gone j cs same e = ground (arith, same, e, get-remove k j b.dirs h.dirs_ascend)

    kept :
        (j : AKey) (cs : Children)
        → (k == j) ≡ false
        → Numbered.get (Numbered.remove k b.dirs) j ≡ some cs
        → Numbered.get b.dirs j ≡ some cs
    kept j cs differ e = ground (arith, differ, e, get-remove k j b.dirs h.dirs_ascend)

    go :
        (t : Bool)
        → b.dirs_dirty ≡ t
        → IsConsistent (if t then record b { dirs = Numbered.remove k b.dirs } else b)
    go true dirty = record {
      dirs_flag = λ e. absurd (cc);
      files_flag = h.files_flag;
      dirs_ascend = Numbered.remove-AscendsAbove 0 k b.dirs h.dirs_ascend;
      files_ascend = h.files_ascend;
      apart = λ j cs e. elim (Bool-cases (k == j)) [
        | inl same ↦ absurd (gone j cs same e)
        | inr differ ↦ h.apart j cs (kept j cs differ e)
      ];
    }
    go false clean = h

pub forget-IsConsistent : (k : AKey) (b : WriteBuffer) → IsConsistent b → IsConsistent (forget k b)
unfolding forget
forget-IsConsistent k b h = file_forget-IsConsistent k (drop_dir k b) (drop_dir-IsConsistent k b h)

dir_get-drop_dir :
    (k : AKey) (b : WriteBuffer) (j : AKey)
    → IsConsistent b
    → dir_get (drop_dir k b) j ≡ (if k == j then none else dir_get b j)
unfolding dir_get
dir_get-drop_dir k b j h = elim (Bool-cases b.dirs_dirty) [
  | inl dirty ↦ rw dirty (get-remove k j b.dirs h.dirs_ascend)
  | inr clean ↦ rw clean (constant (k == j))
]
  where
    constant : (t : Bool) → ◌≡◌ {A = Option Children} none (if t then none else none)
    constant true = refl
    constant false = refl

pub dir_get-forget :
    (k : AKey) (b : WriteBuffer) (j : AKey)
    → IsConsistent b
    → dir_get (forget k b) j ≡ (if k == j then none else dir_get b j)
unfolding forget
dir_get-forget k b j h = dir_get-file_forget k (drop_dir k b) j ∙ dir_get-drop_dir k b j h

file_get-drop_dir :
    (k : AKey) (b : WriteBuffer) (j : AKey) → file_get (drop_dir k b) j ≡ file_get b j
unfolding file_get
file_get-drop_dir k b j = ground arith

pub file_get-forget :
    (k : AKey) (b : WriteBuffer) (j : AKey)
    → IsConsistent b
    → file_get (forget k b) j ≡ (if k == j then none else file_get b j)
unfolding forget
file_get-forget k b j h =
    file_get-file_forget k (drop_dir k b) (drop_dir-IsConsistent k b h) j
    ∙ rw (file_get-drop_dir k b j) refl
