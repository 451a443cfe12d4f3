-- ===== src/Common/Numbered.antt =====
-- `BTreeMap` with numbers as keys: an association list in ascending order of the keys.
use Prim.Native.Nat.{ℕ, suc, ◌≤◌, ◌<◌, compare, Ordering}
use mathlib.Core.Path.{◌≡◌, refl}
use mathlib.Core.Logic.{◌≢◌}
use mathlib.Core.Option.{Option, none, some}
use mathlib.Core.List.{List, [], ◌∷◌, ◌++◌}
use native.Mathlib.Omega.{arith}

module _ {ℓ} {V : Type ℓ} where
  -- `get`
  unfoldable pub get : List (ℕ × V) → ℕ → Option V
  get [] key = none
  get ((k, v) ∷ rest) key =
      let further = get rest key in
      elim (compare key k) [ Ordering.lt ↦ none | Ordering.eq ↦ some v | Ordering.gt ↦ further ]

  -- `insert`, which replaces the value of a key that is there.
  unfoldable pub insert : ℕ → V → List (ℕ × V) → List (ℕ × V)
  insert key value [] = (key, value) ∷ []
  insert key value ((k, v) ∷ rest) =
      let further = insert key value rest in
      elim (compare key k) [
        | Ordering.lt ↦ (key, value) ∷ (k, v) ∷ rest
        | Ordering.eq ↦ (key, value) ∷ rest
        | Ordering.gt ↦ (k, v) ∷ further
      ]

  -- `remove`
  unfoldable pub remove : ℕ → List (ℕ × V) → List (ℕ × V)
  remove key [] = []
  remove key ((k, v) ∷ rest) =
      let further = remove key rest in
      elim (compare key k) [
        | Ordering.lt ↦ (k, v) ∷ rest
        | Ordering.eq ↦ rest
        | Ordering.gt ↦ (k, v) ∷ further
      ]

  -- Every key is above the bound, and each above the one before.
  abbrev pub AscendsAbove : ℕ → List (ℕ × V) → Type 0
  AscendsAbove bound [] = Unit
  AscendsAbove bound ((k, v) ∷ rest) = (bound ≤ k) × AscendsAbove (suc k) rest

  abbrev pub Ascends : List (ℕ × V) → Type 0
  Ascends m = AscendsAbove 0 m

  pub AscendsAbove-weaken :
      (a b : ℕ) (m : List (ℕ × V)) → a ≤ b → AscendsAbove b m → AscendsAbove a m
  AscendsAbove-weaken a b [] h up = tt
  AscendsAbove-weaken a b ((k, v) ∷ rest) h up = (omega arith, up.1)

  pub get-below :
      (bound key : ℕ) (m : List (ℕ × V)) → key < bound → AscendsAbove bound m → get m key ≡ none
  unfolding get
  get-below bound key [] h up = refl
  get-below bound key ((k, v) ∷ rest) h up = ground arith

  pub get-insert_same :
      (key : ℕ) (value : V) (m : List (ℕ × V)) → get (insert key value m) key ≡ some value
  unfolding get insert
  get-insert_same key value [] = ground arith
  get-insert_same key value ((k, v) ∷ rest) = ground (arith, get-insert_same key value rest)

  pub get-insert_other :
      (bound key other : ℕ) (value : V) (m : List (ℕ × V))
      → key ≢ other
      → AscendsAbove bound m
      → get (insert key value m) other ≡ get m other
  unfolding get insert
  get-insert_other bound key other value [] ne up = ground (arith, ne)
  get-insert_other bound key other value ((k, v) ∷ rest) ne up = ground (
    arith,
    ne,
    get-insert_other (suc k) key other value rest ne up.1,
    get-below (suc k) other rest,
  )

  pub get-remove_same :
      (bound key : ℕ) (m : List (ℕ × V)) → AscendsAbove bound m → get (remove key m) key ≡ none
  unfolding get remove
  get-remove_same bound key [] up = refl
  get-remove_same bound key ((k, v) ∷ rest) up =
      ground (arith, get-remove_same (suc k) key rest up.1, get-below (suc k) key rest)

  pub get-remove_other :
      (bound key other : ℕ) (m : List (ℕ × V))
      → key ≢ other
      → AscendsAbove bound m
      → get (remove key m) other ≡ get m other
  unfolding get remove
  get-remove_other bound key other [] ne up = refl
  get-remove_other bound key other ((k, v) ∷ rest) ne up =
      ground
        (arith, ne, get-remove_other (suc k) key other rest ne up.1, get-below (suc k) other rest)

  pub insert-AscendsAbove :
      (bound key : ℕ) (value : V) (m : List (ℕ × V))
      → bound ≤ key
      → AscendsAbove bound m
      → AscendsAbove bound (insert key value m)
  unfolding insert
  insert-AscendsAbove bound key value [] h up = (h, tt)
  insert-AscendsAbove bound key value ((k, v) ∷ rest) h up =
      ground (arith, insert-AscendsAbove (suc k) key value rest)

  pub remove-AscendsAbove :
      (bound key : ℕ) (m : List (ℕ × V)) → AscendsAbove bound m → AscendsAbove bound (remove key m)
  unfolding remove
  remove-AscendsAbove bound key [] up = tt
  remove-AscendsAbove bound key ((k, v) ∷ rest) up =
      ground (arith, remove-AscendsAbove (suc k) key rest, AscendsAbove-weaken bound (suc k) rest)

  -- Every key is below the bound.
  abbrev pub AllBelow : List (ℕ × V) → ℕ → Type 0
  AllBelow [] bound = Unit
  AllBelow ((k, v) ∷ rest) bound = (k < bound) × AllBelow rest bound

  pub insert-AllBelow :
      (key : ℕ) (value : V) (m : List (ℕ × V))
      → AllBelow m key
      → insert key value m ≡ m ++ (key, value) ∷ []
  unfolding insert
  insert-AllBelow key value [] h = refl
  insert-AllBelow key value ((k, v) ∷ rest) h = ground (arith, insert-AllBelow key value rest)

  pub AllBelow-snoc :
      (key bound : ℕ) (value : V) (m : List (ℕ × V))
      → key < bound
      → AllBelow m key
      → AllBelow (m ++ (key, value) ∷ []) bound
  AllBelow-snoc key bound value [] h below = (h, tt)
  AllBelow-snoc key bound value ((k, v) ∷ rest) h below =
      (omega arith, AllBelow-snoc key bound value rest h below.1)

  pub AllBelow-weaken : (a b : ℕ) (m : List (ℕ × V)) → a ≤ b → AllBelow m a → AllBelow m b
  AllBelow-weaken a b [] h below = tt
  AllBelow-weaken a b ((k, v) ∷ rest) h below = (omega arith, AllBelow-weaken a b rest h below.1)
