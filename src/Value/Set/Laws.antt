-- ===== src/Value/Set/Laws.antt =====
-- What `set_in` leaves at its path, and that a refusal changes nothing.
use arbordb.Common.{
  ◌⊎◌, inl, inr, Bool-cases, ℕ, zero, suc, ◌≡◌, refl, sym, ap, subst, ◌∙◌, List, [], ◌∷◌, Option,
  none, some, Bool, true, false, ◌==◌, arith,
}
use mathlib.Core.Option.{some-injective}
use arbordb.Common.Lex.{lex_refl, lex-eq}
use arbordb.Path.Segment.{Segment, VPath}
use arbordb.Value.Tree.{
  Value, Items, Entries, leaf, list, node, nil, cons, end, entry, count_items, get_item, lookup,
  insert,
}
use arbordb.Value.Access.{subtree, subtree_segments, child_at, at, get}
use arbordb.Value.Set.{set_item, push, build_fresh, set_in, set_value}

pub lookup-insert_same :
    (k : List ℕ) (v : Value) (map : Entries) → lookup k (insert k v map) ≡ some v
unfolding lookup insert
lookup-insert_same k v end = ground (arith, lex_refl k)
lookup-insert_same k v (entry j w map) = ground (arith, lex_refl k, lookup-insert_same k v map)

pub insert-lookup :
    (k : List ℕ) (v : Value) (map : Entries) → lookup k map ≡ some v → insert k v map ≡ map
unfolding lookup insert
insert-lookup k v end e = cc
insert-lookup k v (entry j w map) e = ground (arith, lex-eq k j, insert-lookup k v map)

pub get_item-set_item :
    (i : ℕ) (x y : Value) (items : Items)
    → get_item items i ≡ some y
    → get_item (set_item items i x) i ≡ some x
get_item-set_item i x y nil e = cc
get_item-set_item zero x y (cons z zs) e = refl
get_item-set_item (suc i) x y (cons z zs) e = get_item-set_item i x y zs e

pub set_item-get_item :
    (i : ℕ) (x : Value) (items : Items) → get_item items i ≡ some x → set_item items i x ≡ items
set_item-get_item i x nil e = refl
set_item-get_item zero x (cons z zs) e = ap (λ y. cons y zs) (sym (some-injective z x e))
set_item-get_item (suc i) x (cons z zs) e = ap (cons z) (set_item-get_item i x zs e)

pub get_item-push :
    (x : Value) (items : Items) → get_item (push items x) (count_items items) ≡ some x
get_item-push x nil = refl
get_item-push x (cons z zs) = get_item-push x zs

build_fresh-subtree :
    (segments : List Segment) (v t : Value)
    → build_fresh segments v ≡ some t
    → subtree_segments t segments ≡ some v
unfolding build_fresh subtree_segments child_at get at lookup
build_fresh-subtree [] v t e = sym e
build_fresh-subtree (Segment.name k ∷ rest) v t e =
    go (build_fresh rest v) refl e (build_fresh-subtree rest v)
  where
    go :
        (o : Option Value)
        → build_fresh rest v ≡ o
        → elim o [ none ↦ none | some subtree ↦ some (node (entry k subtree end)) ] ≡ some t
        → ((t : Value) → build_fresh rest v ≡ some t → subtree_segments t rest ≡ some v)
        → subtree_segments t (Segment.name k ∷ rest) ≡ some v
    go none f g next = cc
    go (some s) f g next =
        subst (λ w. subtree_segments w (Segment.name k ∷ rest) ≡ some v)
          (some-injective (node (entry k s end)) t g)
          (rw (subtree_segments, child_at, get, lookup, lex_refl k) (next s f))
build_fresh-subtree (Segment.index zero ∷ rest) v t e =
    go (build_fresh rest v) refl e (build_fresh-subtree rest v)
  where
    go :
        (o : Option Value)
        → build_fresh rest v ≡ o
        → elim o [ none ↦ none | some subtree ↦ some (list (cons subtree nil)) ] ≡ some t
        → ((t : Value) → build_fresh rest v ≡ some t → subtree_segments t rest ≡ some v)
        → subtree_segments t (Segment.index 0 ∷ rest) ≡ some v
    go none f g next = cc
    go (some s) f g next =
        subst (λ w. subtree_segments w (Segment.index 0 ∷ rest) ≡ some v)
          (some-injective (list (cons s nil)) t g) (next s f)
build_fresh-subtree (Segment.index (suc i) ∷ rest) v t e = cc

-- One step down.
pub subtree_name :
    (k : List ℕ) (rest : List Segment) (map : Entries) (child : Value)
    → lookup k map ≡ some child
    → subtree_segments (node map) (Segment.name k ∷ rest) ≡ subtree_segments child rest
unfolding subtree_segments child_at get
subtree_name k rest map child e = rw (subtree_segments, e)

pub subtree_index :
    (i : ℕ) (rest : List Segment) (items : Items) (child : Value)
    → get_item items i ≡ some child
    → subtree_segments (list items) (Segment.index i ∷ rest) ≡ subtree_segments child rest
unfolding subtree_segments child_at at
subtree_index i rest items child e = rw (subtree_segments, e)

-- Either the change was made and the value is there, or it was refused and nothing changed.
abbrev pub Outcome : List Segment → Value → Value → Value × Bool → Type 0
Outcome path value before (after, true) = subtree_segments after path ≡ some value
Outcome path value before (after, false) = after ≡ before

Outcome-name :
    (k : List ℕ) (rest : List Segment) (value child : Value) (map : Entries) (r : Value × Bool)
    → lookup k map ≡ some child
    → Outcome rest value child r
    → Outcome (Segment.name k ∷ rest) value (node map) (node (insert k r.0 map), r.1)
Outcome-name k rest value child map (after, true) e h =
    subtree_name k rest (insert k after map) after (lookup-insert_same k after map) ∙ h
Outcome-name k rest value child map (after, false) e h =
    ap node (ap (λ c. insert k c map) h ∙ insert-lookup k child map e)

Outcome-index :
    (i : ℕ) (rest : List Segment) (value child : Value) (items : Items) (r : Value × Bool)
    → get_item items i ≡ some child
    → Outcome rest value child r
    → Outcome (Segment.index i ∷ rest) value (list items) (list (set_item items i r.0), r.1)
Outcome-index i rest value child items (after, true) e h =
    subtree_index i rest (set_item items i after) after (get_item-set_item i after child items e)
    ∙ h
Outcome-index i rest value child items (after, false) e h =
    ap list (ap (set_item items i) h ∙ set_item-get_item i child items e)

Outcome-insert :
    (k : List ℕ) (rest : List Segment) (value : Value) (map : Entries) (o : Option Value)
    → build_fresh rest value ≡ o
    → Outcome
        (Segment.name k ∷ rest)
        value
        (node map)
        (elim o [ some t ↦ (node (insert k t map), true) | none ↦ (node map, false) ])
Outcome-insert k rest value map none e = refl
Outcome-insert k rest value map (some t) e =
    subtree_name k rest (insert k t map) t (lookup-insert_same k t map)
    ∙ build_fresh-subtree rest value t e

Outcome-push :
    (i : ℕ) (rest : List Segment) (value : Value) (items : Items) (o : Option Value)
    → i ≡ count_items items
    → build_fresh rest value ≡ o
    → Outcome
        (Segment.index i ∷ rest)
        value
        (list items)
        (elim o [ some t ↦ (list (push items t), true) | none ↦ (list items, false) ])
Outcome-push i rest value items none last e = refl
Outcome-push i rest value items (some t) last e =
    subtree_index i rest (push items t) t
      (ap (get_item (push items t)) last ∙ get_item-push t items)
    ∙ build_fresh-subtree rest value t e

set_in-Outcome :
    (path : List Segment) (value before : Value)
    → Outcome path value before (set_in path value before)
unfolding set_in
set_in-Outcome [] value before = unfold subtree_segments in refl
set_in-Outcome (Segment.name k ∷ rest) value (leaf s) = refl
set_in-Outcome (Segment.name k ∷ rest) value (list items) = refl
set_in-Outcome (Segment.index i ∷ rest) value (leaf s) = refl
set_in-Outcome (Segment.index i ∷ rest) value (node map) = refl
set_in-Outcome (Segment.name k ∷ rest) value (node map) =
    go (lookup k map) refl (set_in-Outcome rest value)
  where
    go :
        (o : Option Value)
        → lookup k map ≡ o
        → ((child : Value) → Outcome rest value child (set_in rest value child))
        → Outcome
            (Segment.name k ∷ rest)
            value
            (node map)
            (set_in (Segment.name k ∷ rest) value (node map))
    go none e next =
        subst (Outcome (Segment.name k ∷ rest) value (node map)) (sym (rw (set_in, e) refl))
          (Outcome-insert k rest value map (build_fresh rest value) refl)
    go (some child) e next =
        subst (Outcome (Segment.name k ∷ rest) value (node map)) (sym (rw (set_in, e) refl))
          (Outcome-name k rest value child map (set_in rest value child) e (next child))
set_in-Outcome (Segment.index i ∷ rest) value (list items) =
    go (get_item items i) refl (set_in-Outcome rest value)
  where
    go :
        (o : Option Value)
        → get_item items i ≡ o
        → ((child : Value) → Outcome rest value child (set_in rest value child))
        → Outcome
            (Segment.index i ∷ rest)
            value
            (list items)
            (set_in (Segment.index i ∷ rest) value (list items))
    go none e next = elim (Bool-cases (i == count_items items)) [
      | inl last ↦
          subst (Outcome (Segment.index i ∷ rest) value (list items))
            (sym (rw (set_in, e, last) refl))
            (Outcome-push i rest value items (build_fresh rest value) (ground (arith, last)) refl)
      | inr past ↦
          let stays : set_in (Segment.index i ∷ rest) value (list items) ≡ (list items, false) =
            rw (set_in, e, past) refl in
          subst (Outcome (Segment.index i ∷ rest) value (list items)) (sym stays) refl
    ]
    go (some child) e next =
        subst (Outcome (Segment.index i ∷ rest) value (list items)) (sym (rw (set_in, e) refl))
          (Outcome-index i rest value child items (set_in rest value child) e (next child))

-- Setting a value at a path either succeeds, and then the value stands at that path, or is refused,
-- and then the target is what it was.
pub set_value-subtree :
    (target value : Value) (path : VPath)
    → ((set_value target path value).1 ≡ true)
        × (subtree (set_value target path value).0 path ≡ some value)
      ⊎ ((set_value target path value).1 ≡ false) × ((set_value target path value).0 ≡ target)
unfolding set_value subtree
set_value-subtree target value path =
    go (set_in path.segments value target) (set_in-Outcome path.segments value target)
  where
    go :
        (r : Value × Bool)
        → Outcome path.segments value target r
        → (r.1 ≡ true) × (subtree_segments r.0 path.segments ≡ some value)
          ⊎ (r.1 ≡ false) × (r.0 ≡ target)
    go (after, true) h = inl (refl, h)
    go (after, false) h = inr (refl, h)
