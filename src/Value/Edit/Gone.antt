-- ===== src/Value/Edit/Gone.antt =====
-- A field that was removed is not read any more.
use arbordb.Common.{
  ◌⊎◌, inl, inr, Bool-cases, ℕ, ◌≡◌, refl, sym, ap, subst, List, [], ◌∷◌, ◌++◌, Option, none, some,
  Bool, true, false, arith, Ordering,
}
use arbordb.Common.Lex.{lex, lex-eq}
use arbordb.Data.Scalar.{Chrono}
use arbordb.Data.Utf8.{Text}
use arbordb.Path.Segment.{Segment}
use arbordb.Value.Tree.{
  Value, Entries, leaf, list, node, end, entry, get_item, lookup, insert, Above, EntriesValid,
  IsValid,
}
use arbordb.Value.Access.{
  subtree, subtree_segments, child_at, at, get, lookup-IsValid, get_item-IsValid,
}
use arbordb.Value.Set.{set_item}
use arbordb.Value.Set.Laws.{lookup-insert_same, get_item-set_item}
use arbordb.Value.Edit.{remove, split_last, descend_mut, remove_last, remove_in, remove_value}
use arbordb.Value.Edit.Removes.{remove_in-refused}

lookup-Above : (k : List ℕ) (map : Entries) → Above k map → lookup k map ≡ none
unfolding lookup
lookup-Above k end h = refl
lookup-Above k (entry j w map) h = rw (lookup, h) refl

lookup-remove :
    (chrono : Chrono) (k : List ℕ) (map : Entries)
    → EntriesValid chrono map
    → lookup k (remove k map) ≡ none
unfolding lookup remove
lookup-remove chrono k end h = refl
lookup-remove chrono k (entry j w map) h = ground (
  arith,
  lookup-remove chrono k map h.3,
  λ (e : lex k j ≡ Ordering.eq).
      lookup-Above k map (subst (λ t. Above t map) (sym (lex-eq k j e)) h.2),
)

remove_last-gone :
    (chrono : Chrono) (k : List ℕ) (v : Value)
    → IsValid chrono v
    → (remove_last (Segment.name k) v).1 ≡ true
    → subtree_segments (remove_last (Segment.name k) v).0 (Segment.name k ∷ []) ≡ none
unfolding remove_last subtree_segments child_at get
remove_last-gone chrono k (leaf s) h e = refl
remove_last-gone chrono k (list xs) h e = refl
remove_last-gone chrono k (node map) h e = go (lookup k map)
  where
    removed : subtree_segments (node (remove k map)) (Segment.name k ∷ []) ≡ none
    removed = rw (subtree_segments, child_at, get, lookup-remove chrono k map h) refl

    go :
        (o : Option Value)
        → subtree_segments
            (elim o as (λ x. Value × Bool) [
              | none ↦ (node (remove k map), false)
              | some gone ↦ (node (remove k map), true)
            ]).0
            (Segment.name k ∷ [])
          ≡ none
    go none = removed
    go (some gone) = removed

module _ (chrono : Chrono) (change : Value → Value × Bool) (more : List Segment)
    (gone : (w : Value)
      → IsValid chrono w
      → (change w).1 ≡ true
      → subtree_segments (change w).0 more ≡ none) where
  descend_mut-gone :
      (segments : List Segment) (v : Value)
      → IsValid chrono v
      → (descend_mut segments change v).1 ≡ true
      → subtree_segments (descend_mut segments change v).0 (segments ++ more) ≡ none
  unfolding descend_mut subtree_segments child_at get at
  descend_mut-gone [] v h e = gone v h e
  descend_mut-gone (Segment.name k ∷ rest) (node map) h e =
      go (lookup k map) refl (descend_mut-gone rest) e
    where
      go :
          (o : Option Value)
          → lookup k map ≡ o
          → ((w : Value)
              → IsValid chrono w
              → (descend_mut rest change w).1 ≡ true
              → subtree_segments (descend_mut rest change w).0 (rest ++ more) ≡ none)
          → (elim o as (λ x. Value × Bool) [
            | none ↦ (node map, false)
            | some child ↦ (
              node (insert k (descend_mut rest change child).0 map),
              (descend_mut rest change child).1,
            )
          ]).1
            ≡ true
          → subtree_segments
              (elim o as (λ x. Value × Bool) [
                | none ↦ (node map, false)
                | some child ↦ (
                  node (insert k (descend_mut rest change child).0 map),
                  (descend_mut rest change child).1,
                )
              ]).0
              (Segment.name k ∷ (rest ++ more))
            ≡ none
      go none f next g = absurd (cc)
      go (some child) f next g =
          rw
            (
              subtree_segments,
              child_at,
              get,
              lookup-insert_same k (descend_mut rest change child).0 map,
            )
            (next child (lookup-IsValid chrono k map child h f) g)
  descend_mut-gone (Segment.index i ∷ rest) (list xs) h e =
      go (get_item xs i) refl (descend_mut-gone rest) e
    where
      go :
          (o : Option Value)
          → get_item xs i ≡ o
          → ((w : Value)
              → IsValid chrono w
              → (descend_mut rest change w).1 ≡ true
              → subtree_segments (descend_mut rest change w).0 (rest ++ more) ≡ none)
          → (elim o as (λ x. Value × Bool) [
            | none ↦ (list xs, false)
            | some child ↦ (
              list (set_item xs i (descend_mut rest change child).0),
              (descend_mut rest change child).1,
            )
          ]).1
            ≡ true
          → subtree_segments
              (elim o as (λ x. Value × Bool) [
                | none ↦ (list xs, false)
                | some child ↦ (
                  list (set_item xs i (descend_mut rest change child).0),
                  (descend_mut rest change child).1,
                )
              ]).0
              (Segment.index i ∷ (rest ++ more))
            ≡ none
      go none f next g = absurd (cc)
      go (some child) f next g =
          rw
            (
              subtree_segments,
              child_at,
              at,
              get_item-set_item i (descend_mut rest change child).0 child xs f,
            )
            (next child (get_item-IsValid chrono xs i child h f) g)
  descend_mut-gone (Segment.name k ∷ rest) (leaf s) h e = refl
  descend_mut-gone (Segment.name k ∷ rest) (list xs) h e = refl
  descend_mut-gone (Segment.index i ∷ rest) (leaf s) h e = refl
  descend_mut-gone (Segment.index i ∷ rest) (node map) h e = refl

split_last-append :
    (first : Segment) (rest : List Segment)
    → (split_last first rest).0 ++ (split_last first rest).1 ∷ [] ≡ first ∷ rest
unfolding split_last
split_last-append first [] = refl
split_last-append first (next ∷ rest) = ap (λ t. first ∷ t) (split_last-append next rest)

-- The removal at a path of a valid value that ends in a field: either it reports a removal, and nothing
-- is read at the path, or it reports none, and the value is unchanged.
pub remove_value-subtree :
    (chrono : Chrono) (v : Value) (first : Segment) (rest : List Segment) (k : Text)
    → IsValid chrono v
    → (split_last first rest).1 ≡ Segment.name k
    → (((remove_value v (record { segments = first ∷ rest })).1 ≡ true)
        × (subtree
              (remove_value v (record { segments = first ∷ rest })).0
              (record { segments = first ∷ rest })
            ≡ none))
      ⊎ (((remove_value v (record { segments = first ∷ rest })).1 ≡ false)
          × ((remove_value v (record { segments = first ∷ rest })).0 ≡ v))
unfolding remove_value remove_in subtree
remove_value-subtree chrono v first rest k h last =
    elim (Bool-cases
      (descend_mut (split_last first rest).0 (remove_last (split_last first rest).1) v).1) [
        | inl e ↦ inl (
          e,
          subst
              (λ path.
                subtree_segments
                  (descend_mut (split_last first rest).0 (remove_last (split_last first rest).1)
                    v).0
                  path
                ≡ none)
              (split_last-append first rest)
              (descend_mut-gone chrono (remove_last (split_last first rest).1)
                ((split_last first rest).1 ∷ [])
                (λ w valid f. removed (split_last first rest).1 last w valid f)
                (split_last first rest).0 v h e),
        )
        | inr e ↦ inr (e, remove_in-refused v (first ∷ rest) e)
      ]
  where
    removed :
        (segment : Segment)
        → segment ≡ Segment.name k
        → (w : Value) → IsValid chrono w
        → (remove_last segment w).1 ≡ true
        → subtree_segments (remove_last segment w).0 (segment ∷ []) ≡ none
    removed segment e w valid f =
        subst
          (λ s. (remove_last s w).1 ≡ true → subtree_segments (remove_last s w).0 (s ∷ []) ≡ none)
          (sym e) (remove_last-gone chrono k w valid) f
