-- ===== src/Value/Access.antt =====
-- The read accessors of value.rs: an element, a field, and the subtree at a path.
use arbordb.Common.{
  ℕ, zero, suc, ◌≡◌, ◌⊎◌, inl, inr, subst, List, [], ◌∷◌, Option, none, some, arith, refl,
}
use mathlib.Core.Option.{some-injective}
use arbordb.Common.Lex.{lex-eq}
use arbordb.Data.Utf8.{Text}
use arbordb.Data.Scalar.{Chrono}
use arbordb.Path.Segment.{Segment, VPath}
use arbordb.Value.Tree.{
  Value, Items, Entries, leaf, list, node, nil, cons, end, entry, lookup, get_item, IsValid,
  AllValid, EntriesValid,
}

unfoldable pub at : Value → ℕ → Option Value
at (list items) index = get_item items index
at (leaf s) index = none
at (node map) index = none

unfoldable pub get : Value → Text → Option Value
get (node map) key = lookup key map
get (leaf s) key = none
get (list items) key = none

-- One round of the loop of `subtree`.
unfoldable pub child_at : Value → Segment → Option Value
unfolding at get
child_at current (Segment.name name) = get current name
child_at current (Segment.index index) = at current index

unfoldable pub subtree_segments : Value → List Segment → Option Value
unfolding child_at
subtree_segments current [] = some current
subtree_segments current (segment ∷ segments) = elim (child_at current segment) [
  | none ↦ none
  | some child ↦ subtree_segments child segments
]

-- `Value::subtree`, which `get_value` and `get_value_ref` call.
unfoldable pub subtree : Value → VPath → Option Value
unfolding subtree_segments
subtree value path = subtree_segments value path.segments

pub get_item-IsValid :
    (chrono : Chrono) (xs : Items) (i : ℕ) (x : Value)
    → AllValid chrono xs
    → get_item xs i ≡ some x
    → IsValid chrono x
get_item-IsValid chrono nil i x h e = cc
get_item-IsValid chrono (cons y ys) zero x h e = subst (IsValid chrono) (some-injective y x e) h.0
get_item-IsValid chrono (cons y ys) (suc i) x h e = get_item-IsValid chrono ys i x h.1 e

-- A field is found here or further on.
pub lookup_cases :
    (k j : Text) (w : Value) (es : Entries) (x : Value)
    → lookup k (entry j w es) ≡ some x
    → ((k ≡ j) × (w ≡ x)) ⊎ (lookup k es ≡ some x)
unfolding lookup
lookup_cases k j w es x e = ground (arith, lex-eq k j, some-injective w x)

pub lookup-IsValid :
    (chrono : Chrono) (k : Text) (es : Entries) (x : Value)
    → EntriesValid chrono es
    → lookup k es ≡ some x
    → IsValid chrono x
lookup-IsValid chrono k end x h e = unfold lookup in cc
lookup-IsValid chrono k (entry j w es) x h e = elim (lookup_cases k j w es x e) [
  | inl (same, here) ↦ subst (IsValid chrono) here h.1
  | inr further ↦ lookup-IsValid chrono k es x h.3 further
]

-- A child of a valid value is valid.
pub child_at-IsValid :
    (chrono : Chrono) (v : Value) (segment : Segment) (x : Value)
    → IsValid chrono v
    → child_at v segment ≡ some x
    → IsValid chrono x
unfolding child_at
child_at-IsValid chrono (leaf s) (Segment.name k) x h e = cc
child_at-IsValid chrono (leaf s) (Segment.index i) x h e = cc
child_at-IsValid chrono (list xs) (Segment.name k) x h e = cc
child_at-IsValid chrono (list xs) (Segment.index i) x h e = get_item-IsValid chrono xs i x h e
child_at-IsValid chrono (node es) (Segment.name k) x h e = lookup-IsValid chrono k es x h e
child_at-IsValid chrono (node es) (Segment.index i) x h e = cc

pub subtree_segments-IsValid :
    (chrono : Chrono) (segments : List Segment) (v x : Value)
    → IsValid chrono v
    → subtree_segments v segments ≡ some x
    → IsValid chrono x
unfolding subtree_segments
subtree_segments-IsValid chrono [] v x h e = subst (IsValid chrono) (some-injective v x e) h
subtree_segments-IsValid chrono (segment ∷ segments) v x h e =
    go (child_at v segment) refl (λ child f g.
      subtree_segments-IsValid chrono segments child x (child_at-IsValid chrono v segment child h f)
        g)
  where
    go :
        (o : Option Value)
        → child_at v segment ≡ o
        → ((child : Value)
            → child_at v segment ≡ some child
            → subtree_segments child segments ≡ some x
            → IsValid chrono x)
        → IsValid chrono x
    go none f next = ground (arith, f, e)
    go (some child) f next = next child f (ground (arith, f, e))
