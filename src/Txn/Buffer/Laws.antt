-- ===== src/Txn/Buffer/Laws.antt =====
-- What a consistent buffer holds after each change of it.
use arbordb.Common.{
  ℕ, ◌≡◌, refl, sym, ◌∙◌, List, [], none, some, Bool, Bool-cases, false, inl, inr, ◌==◌, arith,
}
use arbordb.Common.Numbered
use arbordb.Codec.Dir.{Children}
use arbordb.Key.{AKey}
use arbordb.Txn.Buffer.{WriteBuffer, new, dir_get, dir_put, file_get, file_put, bump_structure}

-- A clear flag means that nothing is buffered; keys are in order; no a-node is buffered as both kinds.
pub record IsConsistent (b : WriteBuffer) : Type 0 where
  pub dirs_flag : b.dirs_dirty ≡ false → b.dirs ≡ []
  pub files_flag : b.files_dirty ≡ false → b.files ≡ []
  pub dirs_ascend : Numbered.Ascends b.dirs
  pub files_ascend : Numbered.Ascends b.files
  pub apart :
      (akey : AKey) (children : Children)
      → Numbered.get b.dirs akey ≡ some children
      → Numbered.get b.files akey ≡ none

get-nil {ℓ} : {V : Type ℓ} (m : List (ℕ × V)) (k : ℕ) → m ≡ [] → Numbered.get m k ≡ none
unfolding Numbered.get
get-nil m k e = rw e

-- Whatever the flag says, the buffer is read.
pub dir_get_lem :
    (b : WriteBuffer) (k : AKey) → IsConsistent b → dir_get b k ≡ Numbered.get b.dirs k
unfolding dir_get
dir_get_lem b k h = elim (Bool-cases b.dirs_dirty) [
  | inl dirty ↦ rw dirty
  | inr clean ↦ rw clean (sym (get-nil b.dirs k (h.dirs_flag clean)))
]

pub file_get_lem :
    (b : WriteBuffer) (k : AKey) → IsConsistent b → file_get b k ≡ Numbered.get b.files k
unfolding file_get
file_get_lem b k h = elim (Bool-cases b.files_dirty) [
  | inl dirty ↦ rw dirty
  | inr clean ↦ rw clean (sym (get-nil b.files k (h.files_flag clean)))
]

pub new-IsConsistent : (buffering : Bool) → IsConsistent (new buffering)
unfolding new Numbered.get
new-IsConsistent buffering = record {
  dirs_flag = λ e. refl;
  files_flag = λ e. refl;
  dirs_ascend = tt;
  files_ascend = tt;
  apart = λ k cs e. cc;
}

pub bump_structure-IsConsistent :
    (b : WriteBuffer) → IsConsistent b → IsConsistent (bump_structure b)
unfolding bump_structure
bump_structure-IsConsistent b h = record {
  dirs_flag = h.dirs_flag;
  files_flag = h.files_flag;
  dirs_ascend = h.dirs_ascend;
  files_ascend = h.files_ascend;
  apart = h.apart;
}

pub dir_put-IsConsistent :
    (k : AKey) (cs : Children) (b : WriteBuffer)
    → IsConsistent b
    → file_get b k ≡ none
    → IsConsistent (dir_put k cs b)
unfolding dir_put
dir_put-IsConsistent k cs b h free = record {
  dirs_flag = λ e. absurd (cc);
  files_flag = h.files_flag;
  dirs_ascend = Numbered.insert-AscendsAbove 0 k cs b.dirs (omega arith) h.dirs_ascend;
  files_ascend = h.files_ascend;
  apart = λ j other e. elim (Bool-cases (k == j)) [
    | inl same ↦ let s : k ≡ j = ground (arith, same) in rw (← s) (sym (file_get_lem b k h) ∙ free)
    | inr differ ↦ h.apart j other (
        sym
          (Numbered.get-insert_other 0 k j cs b.dirs (λ s. ground (arith, differ, s)) h.dirs_ascend)
        ∙ e)
  ];
}

pub file_put-IsConsistent :
    (k : AKey) (entry : List ℕ) (b : WriteBuffer)
    → IsConsistent b
    → dir_get b k ≡ none
    → IsConsistent (file_put k entry b)
unfolding file_put
file_put-IsConsistent k entry b h free = record {
  dirs_flag = h.dirs_flag;
  files_flag = λ e. absurd (cc);
  dirs_ascend = h.dirs_ascend;
  files_ascend = Numbered.insert-AscendsAbove 0 k entry b.files (omega arith) h.files_ascend;
  apart = λ j other e. elim (Bool-cases (k == j)) [
    | inl same ↦
        let s : k ≡ j = ground (arith, same) in
        absurd (clash j other (sym (dir_get_lem b j h) ∙ rw s at free) e)
    | inr differ ↦
        Numbered.get-insert_other 0 k j entry b.files (λ s. ground (arith, differ, s))
          h.files_ascend
        ∙ h.apart j other e
  ];
}
  where
    clash :
        (j : AKey) (other : Children)
        → Numbered.get b.dirs j ≡ none
        → Numbered.get b.dirs j ≡ some other
        → ⊥
    clash j other e f = cc
