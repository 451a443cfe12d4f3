-- ===== src/Codec/Dir/Names.antt =====
-- A directory's children as a map: names in strict order, and the child under a name.
use arbordb.Common.{
  ℕ, zero, suc, ◌<◌, ◌≡◌, ◌≢◌, refl, ap, subst, ◌⊎◌, inl, inr, [], ◌∷◌, Option, none, some,
  Ordering, length, get_elem?, arith,
}
use mathlib.Core.Option.{some-injective}
use arbordb.Common.Lex.{lex, lex-eq, lex_refl, lex-lt_trans}
use arbordb.Codec.Dir.{Children}
use arbordb.Data.Utf8.{Text, IsUtf8}
use arbordb.Key.{AKey, IsAKey}

-- `BTreeMap::get`, as a walk over the children.
unfoldable pub find : Text → Children → Option AKey
find name [] = none
find name ((other, akey) ∷ rest) =
    let further = find name rest in
    elim (lex other name) [
      | Ordering.lt ↦ further
      | Ordering.gt ↦ further
      | Ordering.eq ↦ some akey
    ]

abbrev pub AboveAll : Text → Children → Type 0
AboveAll name [] = Unit
AboveAll name ((other, akey) ∷ rest) = lex name other ≡ Ordering.lt

-- What a `BTreeMap<SmolStr, AKey>` can hold.
abbrev pub IsValid : Children → Type 0
IsValid [] = Unit
IsValid ((name, akey) ∷ rest) = IsUtf8 name × IsAKey akey × AboveAll name rest × IsValid rest

abbrev pub name_at : Children → ℕ → Text
name_at [] i = []
name_at ((name, akey) ∷ rest) zero = name
name_at ((name, akey) ∷ rest) (suc i) = name_at rest i

pub get_elem?-name_at :
    (cs : Children) (i : ℕ)
    → i < length cs
    → (akey : AKey) × (get_elem? cs i ≡ some (name_at cs i, akey))
get_elem?-name_at [] i h = absurd (omega arith)
get_elem?-name_at ((name, akey) ∷ rest) zero h = (akey, refl)
get_elem?-name_at ((name, akey) ∷ rest) (suc i) h = get_elem?-name_at rest i (omega arith)

pub get_elem?-lt :
    (cs : Children) (i : ℕ) (name : Text) (akey : AKey)
    → IsValid cs
    → get_elem? cs i ≡ some (name, akey)
    → (i < length cs) × (name_at cs i ≡ name) × IsAKey akey
get_elem?-lt [] i name akey valid e = cc
get_elem?-lt ((n, k) ∷ rest) zero name akey valid e =
    let same : k ≡ akey = cc in (omega arith, cc, subst IsAKey same valid.1)
get_elem?-lt ((n, k) ∷ rest) (suc i) name akey valid e =
    let (below, same, sized) = get_elem?-lt rest i name akey valid.3 e in (omega arith, same, sized)

AboveAll-name_at :
    (name : Text) (cs : Children) (i : ℕ)
    → IsValid cs
    → AboveAll name cs
    → i < length cs
    → lex name (name_at cs i) ≡ Ordering.lt
AboveAll-name_at name [] i valid above h = absurd (omega arith)
AboveAll-name_at name ((n, k) ∷ rest) zero valid above h = above
AboveAll-name_at name ((n, k) ∷ rest) (suc i) valid above h =
    lex-lt_trans name n (name_at rest i) above
      (AboveAll-name_at n rest i valid.3 valid.2 (omega arith))

pub name_at-ascends :
    (cs : Children) (i j : ℕ)
    → IsValid cs
    → i < j
    → j < length cs
    → lex (name_at cs i) (name_at cs j) ≡ Ordering.lt
name_at-ascends [] i j valid l h = absurd (omega arith)
name_at-ascends ((n, k) ∷ rest) i zero valid l h = absurd (omega arith)
name_at-ascends ((n, k) ∷ rest) zero (suc j) valid l h =
    AboveAll-name_at n rest j valid.3 valid.2 (omega arith)
name_at-ascends ((n, k) ∷ rest) (suc i) (suc j) valid l h =
    name_at-ascends rest i j valid.3 (omega arith) (omega arith)

find_cases :
    (name other : Text) (k akey : AKey) (rest : Children)
    → find name ((other, k) ∷ rest) ≡ some akey
    → ((other ≡ name) × (k ≡ akey)) ⊎ (find name rest ≡ some akey)
unfolding find
find_cases name other k akey rest e = ground (arith, lex-eq other name, some-injective k akey)

pub find-some :
    (name : Text) (cs : Children) (akey : AKey)
    → find name cs ≡ some akey
    → (i : ℕ) × (get_elem? cs i ≡ some (name, akey))
find-some name [] akey e = unfold find in cc
find-some name ((n, k) ∷ rest) akey e = elim (find_cases name n k akey rest e) [
  | inl (same, here) ↦ (0, cc)
  | inr further ↦ let (i, there) = find-some name rest akey further in (suc i, there)
]

pub find-none :
    (name : Text) (cs : Children) (i : ℕ)
    → find name cs ≡ none
    → i < length cs
    → name_at cs i ≢ name
unfolding find
find-none name [] i e h = absurd (omega arith)
find-none name ((n, k) ∷ rest) zero e h =
    λ same. ground (arith, same, ap (λ m. lex m name) same, lex_refl name)
find-none name ((n, k) ∷ rest) (suc i) e h = λ same. ground (arith, same, find-none name rest i)
