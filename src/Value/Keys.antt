-- ===== src/Value/Keys.antt =====
-- The entries of an object by their place: the keys ascend, and a lookup finds the place of its key.
use arbordb.Common.{
  ap, ℕ, zero, suc, ◌<◌, ◌≡◌, ◌≢◌, refl, inl, inr, [], Option, none, some, Ordering, arith,
}
use arbordb.Common.Lex.{lex, lex_refl, lex-lt_trans, lex-reverse}
use arbordb.Data.Utf8.{Text}
use arbordb.Data.Scalar.{Chrono}
use arbordb.Value.Tree.{Value, Entries, end, entry, count_entries, lookup, Above, EntriesValid}
use arbordb.Value.Access.{lookup_cases}

-- The `i`th entry of an object.
abbrev pub get_entry : Entries → ℕ → Option (Text × Value)
get_entry end i = none
get_entry (entry k v es) zero = some (k, v)
get_entry (entry k v es) (suc i) = get_entry es i

abbrev pub key_at : Entries → ℕ → Text
key_at end i = []
key_at (entry k v es) zero = k
key_at (entry k v es) (suc i) = key_at es i

-- Below the count there is an entry, under its key.
pub get_entry-key_at :
    (es : Entries) (i : ℕ)
    → i < count_entries es
    → (v : Value) × (get_entry es i ≡ some (key_at es i, v))
get_entry-key_at end i h = absurd (omega arith)
get_entry-key_at (entry k v es) zero h = (v, refl)
get_entry-key_at (entry k v es) (suc i) h = get_entry-key_at es i (omega arith)

pub get_entry-lt :
    (es : Entries) (i : ℕ) (k : Text) (v : Value)
    → get_entry es i ≡ some (k, v)
    → (i < count_entries es) × (key_at es i ≡ k)
get_entry-lt end i k v e = cc
get_entry-lt (entry j w es) zero k v e = (omega arith, cc)
get_entry-lt (entry j w es) (suc i) k v e =
    let (below, same) = get_entry-lt es i k v e in (omega arith, same)

-- A field that is found has a place.
pub lookup-some :
    (k : Text) (es : Entries) (x : Value)
    → lookup k es ≡ some x
    → (i : ℕ) × (get_entry es i ≡ some (k, x))
lookup-some k end x e = unfold lookup in cc
lookup-some k (entry j w es) x e = elim (lookup_cases k j w es x e) [
  | inl (same, here) ↦ (0, cc)
  | inr further ↦ let (i, there) = lookup-some k es x further in (suc i, there)
]

module _ (chrono : Chrono) where
  -- A name below every name of an object is below each of them.
  pub Above-key_at :
      (k : Text) (es : Entries) (i : ℕ)
      → EntriesValid chrono es
      → Above k es
      → i < count_entries es
      → lex k (key_at es i) ≡ Ordering.lt
  Above-key_at k end i valid above h = absurd (omega arith)
  Above-key_at k (entry j w es) zero valid above h = above
  Above-key_at k (entry j w es) (suc i) valid above h =
      lex-lt_trans k j (key_at es i) above (Above-key_at j es i valid.3 valid.2 (omega arith))

  pub key_at-ascends :
      (es : Entries) (i j : ℕ)
      → EntriesValid chrono es
      → i < j
      → j < count_entries es
      → lex (key_at es i) (key_at es j) ≡ Ordering.lt
  key_at-ascends end i j valid l h = absurd (omega arith)
  key_at-ascends (entry k v es) i zero valid l h = absurd (omega arith)
  key_at-ascends (entry k v es) zero (suc j) valid l h =
      Above-key_at k es j valid.3 valid.2 (omega arith)
  key_at-ascends (entry k v es) (suc i) (suc j) valid l h =
      key_at-ascends es i j valid.3 (omega arith) (omega arith)

  pub lookup-none :
      (k : Text) (es : Entries) (i : ℕ)
      → EntriesValid chrono es
      → lookup k es ≡ none
      → i < count_entries es
      → key_at es i ≢ k
  unfolding lookup
  lookup-none k end i valid e h = absurd (omega arith)
  lookup-none k (entry j w es) zero valid e h =
      λ same. ground (arith, same, ap (λ n. lex k n) same, lex_refl k)
  lookup-none k (entry j w es) (suc i) valid e h = λ same. ground (
    arith,
    same,
    lookup-none k es i valid.3,
    lex_refl k,
    Above-key_at j es i valid.3 valid.2 (omega arith),
    lex-reverse k j,
  )
