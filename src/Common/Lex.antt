-- ===== src/Common/Lex.antt =====
-- The order of byte strings, and when two encodings decide it by themselves.
use Prim.Native.Nat.{ℕ, ◌-◌, ◌<◌, compare, Ordering}
use mathlib.Core.Path.{◌≡◌, refl}
use mathlib.Core.Logic.{◌≢◌}
use mathlib.Core.Bool.{Bool, true, false, ◌&&◌}
use mathlib.Core.Option.{Option, none, some}
use mathlib.Core.List.{List, [], ◌∷◌, ◌++◌}
use native.Mathlib.Omega.{arith}
use arbordb.Common.Lists.{All}
use arbordb.Common.Tests.{◌==◌}

-- `Ordering::then`
abbrev pub then_cmp : Ordering → Ordering → Ordering
then_cmp Ordering.eq o = o
then_cmp Ordering.lt o = Ordering.lt
then_cmp Ordering.gt o = Ordering.gt

-- `Ordering::reverse`
abbrev pub reverse_cmp : Ordering → Ordering
reverse_cmp Ordering.lt = Ordering.gt
reverse_cmp Ordering.eq = Ordering.eq
reverse_cmp Ordering.gt = Ordering.lt

-- `Ord::cmp` on byte slices.
unfoldable pub lex : List ℕ → List ℕ → Ordering
lex [] [] = Ordering.eq
lex [] (y ∷ ys) = Ordering.lt
lex (x ∷ xs) [] = Ordering.gt
lex (x ∷ xs) (y ∷ ys) = then_cmp (compare x y) (lex xs ys)

-- The order of two strings that their own bytes decide: `none` when one is a proper prefix of the
-- other, so that what follows them would count.
unfoldable pub verdict : List ℕ → List ℕ → Option Ordering
verdict [] [] = some Ordering.eq
verdict [] (y ∷ ys) = none
verdict (x ∷ xs) [] = none
verdict (x ∷ xs) (y ∷ ys) =
    let rest = verdict xs ys in
    elim (compare x y) [
      | Ordering.eq ↦ rest
      | Ordering.lt ↦ some Ordering.lt
      | Ordering.gt ↦ some Ordering.gt
    ]

abbrev pub and_then : Ordering → Option Ordering → Option Ordering
and_then Ordering.eq o = o
and_then Ordering.lt o = some Ordering.lt
and_then Ordering.gt o = some Ordering.gt

pub verdict-append :
    (xs ys p q : List ℕ) (o : Ordering)
    → verdict xs ys ≡ some o
    → verdict (xs ++ p) (ys ++ q) ≡ and_then o (verdict p q)
unfolding verdict
verdict-append [] [] p q o h = ground arith
verdict-append [] (y ∷ ys) p q o h = cc
verdict-append (x ∷ xs) [] p q o h = cc
verdict-append (x ∷ xs) (y ∷ ys) p q o h = ground (arith, verdict-append xs ys p q o)

pub lex-append :
    (xs ys p q : List ℕ) (o : Ordering)
    → verdict xs ys ≡ some o
    → lex (xs ++ p) (ys ++ q) ≡ then_cmp o (lex p q)
unfolding verdict lex
lex-append [] [] p q o h = ground arith
lex-append [] (y ∷ ys) p q o h = cc
lex-append (x ∷ xs) [] p q o h = cc
lex-append (x ∷ xs) (y ∷ ys) p q o h = ground (arith, lex-append xs ys p q o)

pub lex_refl : (xs : List ℕ) → lex xs xs ≡ Ordering.eq
unfolding lex
lex_refl [] = refl
lex_refl (x ∷ xs) = ground (arith, lex_refl xs)

pub lex-eq : (xs ys : List ℕ) → lex xs ys ≡ Ordering.eq → xs ≡ ys
unfolding lex
lex-eq [] [] h = refl
lex-eq [] (y ∷ ys) h = cc
lex-eq (x ∷ xs) [] h = cc
lex-eq (x ∷ xs) (y ∷ ys) h = ground (arith, lex-eq xs ys)

pub lex-reverse : (xs ys : List ℕ) → lex ys xs ≡ reverse_cmp (lex xs ys)
unfolding lex
lex-reverse [] [] = refl
lex-reverse [] (y ∷ ys) = refl
lex-reverse (x ∷ xs) [] = refl
lex-reverse (x ∷ xs) (y ∷ ys) = ground (arith, lex-reverse xs ys)

pub lex-lt_trans :
    (xs ys zs : List ℕ)
    → lex xs ys ≡ Ordering.lt
    → lex ys zs ≡ Ordering.lt
    → lex xs zs ≡ Ordering.lt
unfolding lex
lex-lt_trans [] [] zs h k = cc
lex-lt_trans [] (y ∷ ys) [] h k = cc
lex-lt_trans [] (y ∷ ys) (z ∷ zs) h k = refl
lex-lt_trans (x ∷ xs) [] zs h k = cc
lex-lt_trans (x ∷ xs) (y ∷ ys) [] h k = cc
lex-lt_trans (x ∷ xs) (y ∷ ys) (z ∷ zs) h k = ground (arith, lex-lt_trans xs ys zs)

-- `!byte` on every byte of a column.
abbrev pub complement : List ℕ → List ℕ
complement [] = []
complement (b ∷ bs) = (255 - b) ∷ complement bs

pub verdict-complement :
    (xs ys : List ℕ) (o : Ordering)
    → All (λ b. b < 256) xs
    → All (λ b. b < 256) ys
    → verdict xs ys ≡ some o
    → verdict (complement xs) (complement ys) ≡ some (reverse_cmp o)
unfolding verdict
verdict-complement [] [] o hx hy h = ground arith
verdict-complement [] (y ∷ ys) o hx hy h = cc
verdict-complement (x ∷ xs) [] o hx hy h = cc
verdict-complement (x ∷ xs) (y ∷ ys) o hx hy h = ground (arith, verdict-complement xs ys o)

-- `<[u8]>::starts_with`
unfoldable pub starts_with : List ℕ → List ℕ → Bool
starts_with xs [] = true
starts_with [] (y ∷ ys) = false
starts_with (x ∷ xs) (y ∷ ys) = x == y && starts_with xs ys

pub starts_with-nil : (xs : List ℕ) → starts_with xs [] ≡ true
unfolding starts_with
starts_with-nil [] = refl
starts_with-nil (x ∷ xs) = refl

abbrev pub is_eq : Ordering → Bool
is_eq Ordering.eq = true
is_eq _ = false

pub starts_with-append :
    (xs ys p q : List ℕ) (o : Ordering)
    → verdict xs ys ≡ some o
    → starts_with (xs ++ p) (ys ++ q) ≡ (is_eq o && starts_with p q)
unfolding verdict starts_with
starts_with-append [] [] p q o h = ground arith
starts_with-append [] (y ∷ ys) p q o h = cc
starts_with-append (x ∷ xs) [] p q o h = cc
starts_with-append (x ∷ xs) (y ∷ ys) p q o h = ground (arith, starts_with-append xs ys p q o)

-- The strings that start with a prefix come first among those that are not below the prefix.
pub starts_with_first :
    (prefix k j : List ℕ)
    → lex k prefix ≢ Ordering.lt
    → lex k j ≢ Ordering.gt
    → starts_with j prefix ≡ true
    → starts_with k prefix ≡ true
unfolding starts_with lex
starts_with_first [] k j h i s = refl
starts_with_first (y ∷ ys) [] j h i s = absurd (h refl)
starts_with_first (y ∷ ys) (x ∷ xs) [] h i s = cc
starts_with_first (y ∷ ys) (x ∷ xs) (z ∷ zs) h i s = ground (arith, starts_with_first ys xs zs)

pub lex-le_trans :
    (xs ys zs : List ℕ)
    → lex xs ys ≢ Ordering.gt
    → lex ys zs ≢ Ordering.gt
    → lex xs zs ≢ Ordering.gt
unfolding lex
lex-le_trans [] ys [] h k = λ e. cc
lex-le_trans [] ys (z ∷ zs) h k = λ e. cc
lex-le_trans (x ∷ xs) [] zs h k = absurd (h refl)
lex-le_trans (x ∷ xs) (y ∷ ys) [] h k = absurd (k refl)
lex-le_trans (x ∷ xs) (y ∷ ys) (z ∷ zs) h k = ground (arith, lex-le_trans xs ys zs)
