-- ===== src/Value/Set/Accepts.antt =====
-- Where `set_in` can put a value, told without its recursion.
use arbordb.Common.{
  ℕ, zero, suc, ◌≡◌, refl, sym, ap, ◌∙◌, ◌↔◌, List, [], ◌∷◌, ◌++◌, Option, none, some, Bool, true,
  false, ◌==◌, if◌then◌else◌, arith,
}
use mathlib.Core.Option.{some-injective}
use arbordb.Path.Segment.{Segment, VPath}
use arbordb.Value.Tree.{
  Value, Items, leaf, list, node, nil, cons, end, entry, count_items, get_item, lookup, insert,
}
use arbordb.Value.Access.{subtree_segments, child_at, at, get}
use arbordb.Value.Set.{push, build_fresh, set_in, set_value}

-- A path that can be built from nothing: it asks for the first place of each list.
abbrev pub Fresh : List Segment → Type 0
Fresh [] = Unit
Fresh (Segment.name k ∷ rest) = Fresh rest
Fresh (Segment.index i ∷ rest) = ◌≡◌ {A = ℕ} i 0 × Fresh rest

-- The value itself is replaced, or it is an object without the field, or a list of the length asked for,
-- and what lies further can be built.
abbrev pub Opens : Value → List Segment → Type 0
Opens w [] = Unit
Opens (node map) (Segment.name k ∷ rest) = (lookup k map ≡ none) × Fresh rest
Opens (list items) (Segment.index i ∷ rest) = (i ≡ count_items items) × Fresh rest
Opens (node map) (Segment.index i ∷ rest) = ⊥
Opens (list items) (Segment.name k ∷ rest) = ⊥
Opens (leaf s) (segment ∷ rest) = ⊥

-- The path leads along what is there, and what it leads to opens on the rest.
abbrev pub Accepts : Value → List Segment → Type 0
Accepts target path =
    (head : List Segment) × (rest : List Segment) × (w : Value) × (head ++ rest ≡ path)
    × (subtree_segments target head ≡ some w)
    × Opens w rest

Fresh-build_fresh :
    (path : List Segment) (v : Value) → Fresh path → (t : Value) × (build_fresh path v ≡ some t)
unfolding build_fresh
Fresh-build_fresh [] v h = (v, refl)
Fresh-build_fresh (Segment.name k ∷ rest) v h =
    let (t, e) = Fresh-build_fresh rest v h in (node (entry k t end), rw (build_fresh, e) refl)
Fresh-build_fresh (Segment.index zero ∷ rest) v h =
    let (t, e) = Fresh-build_fresh rest v h.1 in (list (cons t nil), rw (build_fresh, e) refl)
Fresh-build_fresh (Segment.index (suc i) ∷ rest) v h = absurd (omega (arith, h.0))

build_fresh-Fresh : (path : List Segment) (v t : Value) → build_fresh path v ≡ some t → Fresh path
unfolding build_fresh
build_fresh-Fresh [] v t e = tt
build_fresh-Fresh (Segment.name k ∷ rest) v t e =
    go (build_fresh rest v) e (build_fresh-Fresh rest v)
  where
    go :
        (o : Option Value)
        → elim o as (λ _. Option Value) [ none ↦ none | some s ↦ some (node (entry k s end)) ]
          ≡ some t
        → ((s : Value) → o ≡ some s → Fresh rest)
        → Fresh rest
    go none f next = cc
    go (some s) f next = next s refl
build_fresh-Fresh (Segment.index zero ∷ rest) v t e =
    (refl, go (build_fresh rest v) e (build_fresh-Fresh rest v))
  where
    go :
        (o : Option Value)
        → elim o as (λ _. Option Value) [ none ↦ none | some s ↦ some (list (cons s nil)) ] ≡ some t
        → ((s : Value) → o ≡ some s → Fresh rest)
        → Fresh rest
    go none f next = cc
    go (some s) f next = next s refl
build_fresh-Fresh (Segment.index (suc i) ∷ rest) v t e = cc

get_item-end : (items : Items) → get_item items (count_items items) ≡ none
get_item-end nil = refl
get_item-end (cons x items) = get_item-end items

-- Below a child that is there, it is the child that accepts or refuses.
set_in-child :
    (target : Value) (segment : Segment) (rest : List Segment) (v child : Value)
    → child_at target segment ≡ some child
    → (set_in (segment ∷ rest) v target).1 ≡ (set_in rest v child).1
unfolding set_in child_at at get
set_in-child (leaf s) (Segment.name k) rest v child e = cc
set_in-child (leaf s) (Segment.index i) rest v child e = cc
set_in-child (list items) (Segment.name k) rest v child e = cc
set_in-child (list items) (Segment.index i) rest v child e = rw (set_in, e) refl
set_in-child (node map) (Segment.name k) rest v child e = rw (set_in, e) refl
set_in-child (node map) (Segment.index i) rest v child e = cc

Opens-set_in : (rest : List Segment) (v w : Value) → Opens w rest → (set_in rest v w).1 ≡ true
unfolding set_in
Opens-set_in [] v w h = refl
Opens-set_in (Segment.name k ∷ rest) v (node map) h =
    let (t, e) = Fresh-build_fresh rest v h.1 in rw (set_in, h.0, e) refl
Opens-set_in (Segment.index i ∷ rest) v (list items) h =
    let (t, e) = Fresh-build_fresh rest v h.1 in
    let missing : get_item items i ≡ none = ap (get_item items) h.0 ∙ get_item-end items in
    let last : (i == count_items items) ≡ true = ground (arith, h.0) in
    rw (set_in, missing, last, e) refl
Opens-set_in (Segment.index i ∷ rest) v (node map) h = absurd h
Opens-set_in (Segment.name k ∷ rest) v (list items) h = absurd h
Opens-set_in (segment ∷ rest) v (leaf s) h = absurd h

set_in-Opens :
    (segment : Segment) (rest : List Segment) (v target : Value)
    → child_at target segment ≡ none
    → (set_in (segment ∷ rest) v target).1 ≡ true
    → Opens target (segment ∷ rest)
unfolding set_in child_at at get
set_in-Opens (Segment.name k) rest v (leaf s) missing done = cc
set_in-Opens (Segment.index i) rest v (leaf s) missing done = cc
set_in-Opens (Segment.name k) rest v (list items) missing done = cc
set_in-Opens (Segment.index i) rest v (node map) missing done = cc
set_in-Opens (Segment.name k) rest v (node map) missing done =
    (missing, go (build_fresh rest v) (rw (set_in, missing) at done) (build_fresh-Fresh rest v))
  where
    go :
        (o : Option Value)
        → (elim o as (λ _. Value × Bool) [
          | some t ↦ (node (insert k t map), true)
          | none ↦ (node map, false)
        ]).1
          ≡ true
        → ((t : Value) → o ≡ some t → Fresh rest)
        → Fresh rest
    go none f next = cc
    go (some t) f next = next t refl
set_in-Opens (Segment.index i) rest v (list items) missing done =
    go (build_fresh rest v) (i == count_items items) refl (rw (set_in, missing) at done)
      (build_fresh-Fresh rest v)
  where
    go :
        (o : Option Value) (last : Bool)
        → (i == count_items items) ≡ last
        → (if last
            then elim o as (λ _. Value × Bool) [
              | some t ↦ (list (push items t), true)
              | none ↦ (list items, false)
            ]
            else (list items, false)).1
          ≡ true
        → ((t : Value) → o ≡ some t → Fresh rest)
        → (i ≡ count_items items) × Fresh rest
    go none true e f next = cc
    go none false e f next = cc
    go (some t) true e f next = (ground (arith, e), next t refl)
    go (some t) false e f next = cc

along :
    (head rest : List Segment) (v target w : Value)
    → subtree_segments target head ≡ some w
    → (set_in (head ++ rest) v target).1 ≡ (set_in rest v w).1
unfolding subtree_segments
along [] rest v target w e = ap (λ t. (set_in rest v t).1) (some-injective target w e)
along (segment ∷ head) rest v target w e =
    go (child_at target segment) refl e (λ child. along head rest v child w)
  where
    go :
        (o : Option Value)
        → child_at target segment ≡ o
        → elim o as (λ _. Option Value) [ none ↦ none | some child ↦ subtree_segments child head ]
          ≡ some w
        → ((child : Value)
            → subtree_segments child head ≡ some w
            → (set_in (head ++ rest) v child).1 ≡ (set_in rest v w).1)
        → (set_in (segment ∷ (head ++ rest)) v target).1 ≡ (set_in rest v w).1
    go none f g next = cc
    go (some child) f g next = set_in-child target segment (head ++ rest) v child f ∙ next child g

Accepts-set_in :
    (path : List Segment) (v target : Value) → Accepts target path → (set_in path v target).1 ≡ true
Accepts-set_in path v target (head, rest, w, e, found, opens) =
    ap (λ p. (set_in p v target).1) (sym e)
    ∙ along head rest v target w found
    ∙ Opens-set_in rest v w opens

set_in-Accepts :
    (path : List Segment) (v target : Value) → (set_in path v target).1 ≡ true → Accepts target path
unfolding subtree_segments
set_in-Accepts [] v target done = ([], [], target, refl, refl, tt)
set_in-Accepts (segment ∷ path) v target done =
    go (child_at target segment) refl (λ child. set_in-Accepts path v child)
  where
    go :
        (o : Option Value)
        → child_at target segment ≡ o
        → ((child : Value) → (set_in path v child).1 ≡ true → Accepts child path)
        → Accepts target (segment ∷ path)
    go none e next =
        ([], segment ∷ path, target, refl, refl, set_in-Opens segment path v target e done)
    go (some child) e next =
        let (head, rest, w, same, found, opens) =
          next child (sym (set_in-child target segment path v child e) ∙ done) in
        (segment ∷ head, rest, w, ap (λ p. segment ∷ p) same, rw (subtree_segments, e) found, opens)

-- A value is set at a path exactly when the path leads along what is there to a value that it ends at, to
-- an object without the next field, or to a list whose length is the next index, and every index further
-- on is zero.
pub set_value-Accepts :
    (target value : Value) (path : VPath)
    → ((set_value target path value).1 ≡ true) ↔ Accepts target path.segments
unfolding set_value
set_value-Accepts target value path =
    (set_in-Accepts path.segments value target, Accepts-set_in path.segments value target)
