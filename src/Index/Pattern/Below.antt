-- ===== src/Index/Pattern/Below.antt =====
-- The children that a listing gives are those that lookups of names give.
use mathlib.Core.List.{Memᴰ}
use mathlib.Core.List.Memᴰ
use arbordb.Common.{
  ℕ, ◌≡◌, sym, ap, subst, ◌∙◌, ◌⊎◌, inl, inr, ◌↔◌, List, [], ◌∷◌, Option, none, some, Ordering,
  Result, ok, arith,
}
use arbordb.Common.Lex.{lex, lex-eq, lex_refl}
use arbordb.Codec.Dir.{Children, encode_dir}
use arbordb.Codec.Dir.Names.{find}
use arbordb.Codec.Dir.RoundTrip.{entries-encode_dir}
use arbordb.Data.Utf8.{Text}
use arbordb.Engine.Entry.{entry_split, dir_entry, file_entry, child_in, child_of}
use arbordb.Index.Pattern.{children}
use arbordb.Key.{AKey}
use arbordb.Txn.Children.{values}
use arbordb.Txn.Children.Laws.{Ordered, IsValid-Ordered, find_above}
use arbordb.Txn.Pending.{Writable}
use arbordb.Txn.Pending.Reads.{child_in-encode_dir}

-- Every entry is a file's or that of a directory that can be written.
abbrev pub IsTree : (AKey → Option (List ℕ)) → Type 0
IsTree read =
    (k : AKey)
    → (read k ≡ none)
      ⊎ ((blob : List ℕ) × (read k ≡ some (file_entry blob)))
      ⊎ ((cs : Children) × Writable cs × (read k ≡ some (dir_entry (encode_dir cs))))

values-find :
    (cs : Children) (child : AKey)
    → Ordered cs
    → Memᴰ child (values cs)
    → (name : Text) × (find name cs ≡ some child)
unfolding values find
values-find [] child ordered mem = absurd (Memᴰ.not-nil mem)
values-find ((name, k) ∷ rest) child ordered mem = elim (Memᴰ.cases_cons mem) [
  | inl e ↦ (name, ground (arith, lex_refl name, sym e))
  | inr more ↦
      let (other, there) = values-find rest child ordered.1 more in
      (other, ground (arith, there, find_above name rest ordered.0 ordered.1, lex-eq name other))
]

find-values :
    (cs : Children) (name : Text) (child : AKey)
    → find name cs ≡ some child
    → Memᴰ child (values cs)
unfolding values find
find-values [] name child e = absurd (cc)
find-values ((other, k) ∷ rest) name child e = go (lex other name) e (find-values rest name child)
  where
    step : Ordering → Option AKey
    step o = elim o [
      | Ordering.lt ↦ find name rest
      | Ordering.gt ↦ find name rest
      | Ordering.eq ↦ some k
    ]

    go :
        (o : Ordering)
        → step o ≡ some child
        → (find name rest ≡ some child → Memᴰ child (values rest))
        → Memᴰ child (k ∷ values rest)
    go Ordering.lt e more = Memᴰ.tail (more e)
    go Ordering.gt e more = Memᴰ.tail (more e)
    go Ordering.eq e more = Memᴰ.head (cc)

children-none : (below : List AKey) → children none ≡ ok below → below ≡ []
unfolding children
children-none below e = cc

children-file :
    (blob : List ℕ) (below : List AKey) → children (some (file_entry blob)) ≡ ok below → below ≡ []
unfolding children entry_split file_entry
children-file blob below e = cc

children-dir :
    (cs : Children) (below : List AKey)
    → Writable cs
    → children (some (dir_entry (encode_dir cs))) ≡ ok below
    → below ≡ values cs
unfolding children entry_split dir_entry
children-dir cs below (valid, small) e =
    let (dir, opens, listed, counted) = entries-encode_dir cs valid small in
    let same : ◌≡◌ {A = Result (List AKey)} (ok (values cs)) (ok below) =
      (rw (opens, listed) at e) in
    cc

child_of-dir :
    (name : Text) (cs : Children)
    → Writable cs
    → child_of (some (dir_entry (encode_dir cs))) name ≡ ok (find name cs)
unfolding child_of
child_of-dir name cs writable = child_in-encode_dir cs name writable

pub children_lem :
    (read : AKey → Option (List ℕ)) (cur child : AKey) (below : List AKey)
    → IsTree read
    → children (read cur) ≡ ok below
    → Memᴰ child below ↔ ((name : Text) × (child_of (read cur) name ≡ ok (some child)))
children_lem read cur child below tree h = elim (tree cur) [
  | inl missing ↦
      empty (children-none below (sym (ap children missing) ∙ h))
        (λ name e. absurd (no_child name (sym (ap (λ o. child_of o name) missing) ∙ e)))
  | inr (inl (blob, e)) ↦
      empty (children-file blob below (sym (ap children e) ∙ h))
        (λ name found. no_child_in blob name (sym (ap (λ o. child_of o name) e) ∙ found))
  | inr (inr (cs, writable, e)) ↦
      let same = children-dir cs below writable (sym (ap children e) ∙ h) in
      let looked = λ (name : Text). ap (λ o. child_of o name) e ∙ child_of-dir name cs writable in
      (
        λ mem.
            let (name, found) =
              values-find cs child (IsValid-Ordered cs writable.0) (subst (Memᴰ child) same mem) in
            (name, looked name ∙ ap ok found),
        λ (name, found).
            subst (Memᴰ child) (sym same)
              (find-values cs name child (inside name cs (sym (looked name) ∙ found))),
      )
]
  where
    empty :
        below ≡ []
        → ((name : Text) → child_of (read cur) name ≡ ok (some child) → ⊥)
        → Memᴰ child below ↔ ((name : Text) × (child_of (read cur) name ≡ ok (some child)))
    empty e nothing = (
      λ mem. absurd (Memᴰ.not-nil (subst (Memᴰ child) e mem)),
      λ (name, found). absurd (nothing name found),
    )

    no_child : (name : Text) → child_of none name ≡ ok (some child) → ⊥
    no_child name e = unfold child_of in cc

    no_child_in :
        (blob : List ℕ) (name : Text) → child_of (some (file_entry blob)) name ≡ ok (some child) → ⊥
    no_child_in blob name e = unfold child_of child_in entry_split file_entry in cc

    inside :
        (name : Text) (cs : Children)
        → ◌≡◌ {A = Result (Option AKey)} (ok (find name cs)) (ok (some child))
        → find name cs ≡ some child
    inside name cs e = cc
