-- ===== src/Value/Edit/Removes.antt =====
-- What the removal of a field leaves, and that a removal that finds nothing changes nothing.
use arbordb.Common.{
  ℕ, ◌≡◌, refl, ap, ◌∙◌, List, [], ◌∷◌, Option, none, some, Bool, true, false, arith,
}
use arbordb.Path.Segment.{Segment}
use arbordb.Value.Tree.{Value, Entries, leaf, list, node, end, entry, get_item, lookup, insert}
use arbordb.Value.Set.{set_item}
use arbordb.Value.Set.Laws.{insert-lookup, set_item-get_item}
use arbordb.Value.Edit.{remove, split_last, descend_mut, remove_last, remove_in}

remove-lookup : (k : List ℕ) (map : Entries) → lookup k map ≡ none → remove k map ≡ map
unfolding lookup remove
remove-lookup k end e = refl
remove-lookup k (entry j w map) e = ground (arith, remove-lookup k map)

remove_last-refused :
    (segment : Segment) (v : Value)
    → (remove_last segment v).1 ≡ false
    → (remove_last segment v).0 ≡ v
unfolding remove_last
remove_last-refused (Segment.name k) (leaf s) e = refl
remove_last-refused (Segment.name k) (list xs) e = refl
remove_last-refused (Segment.name k) (node map) e = go (lookup k map) refl e
  where
    go :
        (o : Option Value)
        → lookup k map ≡ o
        → (elim o as (λ x. Value × Bool) [
          | none ↦ (node (remove k map), false)
          | some gone ↦ (node (remove k map), true)
        ]).1
          ≡ false
        → (elim o as (λ x. Value × Bool) [
          | none ↦ (node (remove k map), false)
          | some gone ↦ (node (remove k map), true)
        ]).0
          ≡ node map
    go none f g = ap node (remove-lookup k map f)
    go (some gone) f g = absurd (cc)
remove_last-refused (Segment.index i) (leaf s) e = refl
remove_last-refused (Segment.index i) (node map) e = refl
remove_last-refused (Segment.index i) (list xs) e = ground (arith)

descend_mut-refused :
    (segments : List Segment) (change : Value → Value × Bool) (v : Value)
    → ((w : Value) → (change w).1 ≡ false → (change w).0 ≡ w)
    → (descend_mut segments change v).1 ≡ false
    → (descend_mut segments change v).0 ≡ v
unfolding descend_mut
descend_mut-refused [] change v keeps e = keeps v e
descend_mut-refused (Segment.name k ∷ rest) change (node map) keeps e =
    go (lookup k map) refl (λ child. descend_mut-refused rest change child keeps) e
  where
    go :
        (o : Option Value)
        → lookup k map ≡ o
        → ((child : Value)
            → (descend_mut rest change child).1 ≡ false
            → (descend_mut rest change child).0 ≡ child)
        → (elim o as (λ x. Value × Bool) [
          | none ↦ (node map, false)
          | some child ↦ (
            node (insert k (descend_mut rest change child).0 map),
            (descend_mut rest change child).1,
          )
        ]).1
          ≡ false
        → (elim o as (λ x. Value × Bool) [
          | none ↦ (node map, false)
          | some child ↦ (
            node (insert k (descend_mut rest change child).0 map),
            (descend_mut rest change child).1,
          )
        ]).0
          ≡ node map
    go none f next g = refl
    go (some child) f next g =
        ap (λ c. node (insert k c map)) (next child g) ∙ ap node (insert-lookup k child map f)
descend_mut-refused (Segment.index i ∷ rest) change (list xs) keeps e =
    go (get_item xs i) refl (λ child. descend_mut-refused rest change child keeps) e
  where
    go :
        (o : Option Value)
        → get_item xs i ≡ o
        → ((child : Value)
            → (descend_mut rest change child).1 ≡ false
            → (descend_mut rest change child).0 ≡ child)
        → (elim o as (λ x. Value × Bool) [
          | none ↦ (list xs, false)
          | some child ↦ (
            list (set_item xs i (descend_mut rest change child).0),
            (descend_mut rest change child).1,
          )
        ]).1
          ≡ false
        → (elim o as (λ x. Value × Bool) [
          | none ↦ (list xs, false)
          | some child ↦ (
            list (set_item xs i (descend_mut rest change child).0),
            (descend_mut rest change child).1,
          )
        ]).0
          ≡ list xs
    go none f next g = refl
    go (some child) f next g =
        ap (λ c. list (set_item xs i c)) (next child g) ∙ ap list (set_item-get_item i child xs f)
descend_mut-refused (Segment.name k ∷ rest) change (leaf s) keeps e = refl
descend_mut-refused (Segment.name k ∷ rest) change (list xs) keeps e = refl
descend_mut-refused (Segment.index i ∷ rest) change (leaf s) keeps e = refl
descend_mut-refused (Segment.index i ∷ rest) change (node map) keeps e = refl

-- A removal that reports that nothing was removed changes nothing.
pub remove_in-refused :
    (v : Value) (segments : List Segment)
    → (remove_in v segments).1 ≡ false
    → (remove_in v segments).0 ≡ v
unfolding remove_in
remove_in-refused v [] e = absurd (cc)
remove_in-refused v (first ∷ rest) e =
    descend_mut-refused (split_last first rest).0 (remove_last (split_last first rest).1) v
      (remove_last-refused (split_last first rest).1) e
