-- ===== src/Index/Pattern/Target.antt =====
-- The a-nodes that a pattern selects along a scope.
use mathlib.Core.List.{Memᴰ}
use arbordb.Common.{
  ℕ, ◌≡◌, refl, subst, ◌⊎◌, inl, inr, ◌↔◌, List, [], ◌∷◌, Option, none, some, true, Ordering,
  Result, ok, err, ◌>>=◌,
}
use arbordb.Common.Lex.{lex, lex-eq, is_eq}
use arbordb.Data.Utf8.{Text}
use arbordb.Engine.Entry.{child_of}
use arbordb.Index.Pattern.{PatternSeg, lit, star}
use arbordb.Key.{AKey}
use arbordb.Path.Access.{same}
use arbordb.Txn.Pending.Walk.{walk}

-- Names that a pattern selects.
abbrev pub Matches : List PatternSeg → List Text → Type 0
Matches [] [] = Unit
Matches [] (name ∷ names) = ⊥
Matches (seg ∷ segs) [] = ⊥
Matches (lit other ∷ segs) (name ∷ names) = (name ≡ other) × Matches segs names
Matches (star ∷ segs) (name ∷ names) = Matches segs names

-- One path leads along the other, as far as both go.
abbrev pub Agrees : List Text → List Text → Type 0
Agrees [] scope = Unit
Agrees (name ∷ names) [] = Unit
Agrees (name ∷ names) (taken ∷ scope) = (name ≡ taken) × Agrees names scope

pub same-eq : (a b : Text) → same a b ≡ true → a ≡ b
same-eq a b e = lex-eq a b (go (lex a b) e)
  where
    go : (o : Ordering) → is_eq o ≡ true → o ≡ Ordering.eq
    go Ordering.eq e = refl
    go Ordering.lt e = absurd (cc)
    go Ordering.gt e = absurd (cc)

pub Agrees-nil : (names : List Text) → Agrees names []
Agrees-nil [] = tt
Agrees-nil (name ∷ names) = tt

module _ (read : AKey → Option (List ℕ)) where
  -- An a-node below another, by names that the pattern selects and that agree with the scope.
  abbrev pub Target : List PatternSeg → AKey → List Text → AKey → Type 0
  Target segs cur scope k =
      (names : List Text) × Matches segs names
      × Agrees names scope
      × (walk read cur names ≡ ok (some k))

  abbrev pub Step : Text → List PatternSeg → AKey → List Text → AKey → Type 0
  Step name segs cur scope k =
      (child : AKey) × (child_of (read cur) name ≡ ok (some child)) × Target segs child scope k

  walk-cons :
      (cur : AKey) (name : Text) (names : List Text) (k : AKey)
      → walk read cur (name ∷ names) ≡ ok (some k)
      → (child : AKey) × (child_of (read cur) name ≡ ok (some child))
        × (walk read child names ≡ ok (some k))
  unfolding walk
  walk-cons cur name names k h = go (child_of (read cur) name) refl h
    where
      next : Result (Option AKey) → Result (Option AKey)
      next r = do found ← r; elim found [ none ↦ ok none | some child ↦ walk read child names ]

      go :
          (r : Result (Option AKey))
          → child_of (read cur) name ≡ r
          → next r ≡ ok (some k)
          → (child : AKey) × (child_of (read cur) name ≡ ok (some child))
            × (walk read child names ≡ ok (some k))
      go (err e) f h = cc
      go (ok none) f h = cc
      go (ok (some child)) f h = (child, f, h)

  pub walk-step :
      (cur child : AKey) (name : Text) (names : List Text) (k : AKey)
      → child_of (read cur) name ≡ ok (some child)
      → walk read child names ≡ ok (some k)
      → walk read cur (name ∷ names) ≡ ok (some k)
  unfolding walk
  walk-step cur child name names k e h = rw e h

  -- A target behind one more segment is a target below a child.
  pub Target-Step :
      (seg : PatternSeg) (segs : List PatternSeg) (cur : AKey) (name : Text)
      (scope further : List Text) (k : AKey)
      → ((names : List Text) → Matches segs names → Matches (seg ∷ segs) (name ∷ names))
      → ((names : List Text) → Agrees names further → Agrees (name ∷ names) scope)
      → Step name segs cur further k
      → Target (seg ∷ segs) cur scope k
  Target-Step seg segs cur name scope further k matches agrees (child, e, target) =
      let (names, m, a, w) = target in
      (name ∷ names, matches names m, agrees names a, walk-step cur child name names k e w)

  -- A target behind one more segment is below the child of its first name.
  pub Target-first :
      (seg : PatternSeg) (segs : List PatternSeg) (cur : AKey) (scope : List Text) (k : AKey)
      → Target (seg ∷ segs) cur scope k
      → (name : Text) × (names : List Text) × (child : AKey) × Matches (seg ∷ segs) (name ∷ names)
        × Agrees (name ∷ names) scope
        × (child_of (read cur) name ≡ ok (some child))
        × (walk read child names ≡ ok (some k))
  Target-first seg segs cur scope k ([], m, a, w) = absurd m
  Target-first seg segs cur scope k (name ∷ names, m, a, w) =
      let (child, e, rest) = walk-cons cur name names k w in (name, names, child, m, a, e, rest)

  pub along :
      (segs : List PatternSeg) (cur : AKey) (scope further : List Text) (out found : List AKey)
      (k : AKey) (seg : PatternSeg) (name : Text)
      → Memᴰ k found ↔ (Memᴰ k out ⊎ Step name segs cur further k)
      → ((names : List Text) → Matches segs names → Matches (seg ∷ segs) (name ∷ names))
      → ((names : List Text) → Agrees names further → Agrees (name ∷ names) scope)
      → ((other : Text) (names : List Text)
          → Matches (seg ∷ segs) (other ∷ names)
          → Agrees (other ∷ names) scope
          → (other ≡ name) × Matches segs names × Agrees names further)
      → Memᴰ k found ↔ (Memᴰ k out ⊎ Target (seg ∷ segs) cur scope k)
  along segs cur scope further out found k seg name iff matches agrees first = (
    λ mem. elim (iff.0 mem) [
      | inl old ↦ inl old
      | inr step ↦ inr (Target-Step seg segs cur name scope further k matches agrees step)
    ],
    λ o. iff.1 (elim o [
      | inl old ↦ inl old
      | inr target ↦
          let (other, names, child, m, a, e, w) = Target-first seg segs cur scope k target in
          let (same, ms, ag) = first other names m a in
          inr
            (child, subst (λ x. child_of (read cur) x ≡ ok (some child)) same e, (names, ms, ag, w))
    ]),
  )
