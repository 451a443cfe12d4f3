-- ===== src/Index/Ordered/Text.antt =====
-- The escaped byte strings of ordered.rs compare as the strings do, and none is a prefix of another.
use arbordb.Common.{ℕ, ◌<◌, ◌≡◌, refl, List, [], ◌∷◌, ◌++◌, append_assoc, some, length, All, arith}
use arbordb.Common.Lex.{lex, verdict}
use arbordb.Index.Ordered.{escape, ordered_bytes}

verdict-escape :
    (xs ys : List ℕ)
    → verdict (escape xs ++ 0 ∷ 1 ∷ []) (escape ys ++ 0 ∷ 1 ∷ []) ≡ some (lex xs ys)
unfolding escape verdict lex
verdict-escape [] [] = ground arith
verdict-escape [] (y ∷ ys) = ground arith
verdict-escape (x ∷ xs) [] = ground arith
verdict-escape (x ∷ xs) (y ∷ ys) = ground (arith, verdict-escape xs ys)

pub ordered_bytes-append : (out bs : List ℕ) → ordered_bytes out bs ≡ out ++ ordered_bytes [] bs
unfolding ordered_bytes
ordered_bytes-append out bs = append_assoc out (escape bs) _

pub verdict-ordered_bytes :
    (xs ys : List ℕ) → verdict (ordered_bytes [] xs) (ordered_bytes [] ys) ≡ some (lex xs ys)
unfolding ordered_bytes
verdict-ordered_bytes = verdict-escape

escape-IsByte : (xs : List ℕ) → All (λ b. b < 256) xs → All (λ b. b < 256) (escape xs ++ 0 ∷ 1 ∷ [])
unfolding escape
escape-IsByte [] h = omega arith
escape-IsByte (x ∷ xs) h = ground (arith, escape-IsByte xs h.1)

pub ordered_bytes-IsByte :
    (xs : List ℕ) → All (λ b. b < 256) xs → All (λ b. b < 256) (ordered_bytes [] xs)
unfolding ordered_bytes
ordered_bytes-IsByte = escape-IsByte

-- Strings of one length decide their own order.
pub verdict-same_length :
    (xs ys : List ℕ) → length xs ≡ length ys → verdict xs ys ≡ some (lex xs ys)
unfolding verdict lex
verdict-same_length [] [] h = refl
verdict-same_length [] (y ∷ ys) h = absurd (omega arith)
verdict-same_length (x ∷ xs) [] h = absurd (omega arith)
verdict-same_length (x ∷ xs) (y ∷ ys) h = ground (arith, verdict-same_length xs ys)
