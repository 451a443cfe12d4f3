-- ===== src/Index/Ordered/Numbers.antt =====
-- The encodings of numbers in ordered.rs compare as the numbers do.
use native.Mathlib.Nat.{pow-suc}
use arbordb.Common.{
  ℕ, zero, suc, ◌+◌, ◌-◌, ◌*◌, ◌/◌, ◌%◌, ◌^◌, ◌<◌, ◌≡◌, refl, sym, ap, ◌∙◌, List, [], ◌∷◌, ◌++◌,
  append_assoc, some, compare, length, ltb, if◌then◌else◌, Bool-cases, inl, inr, false, All, arith,
}
use arbordb.Common.Be.{be, length-be, verdict-be, be-IsByte}
use arbordb.Common.Bits.{flip_top}
use arbordb.Common.Lex.{verdict}
use arbordb.Common.Int.{ℤ, pos, negsuc, compare_ℤ, to_signed}
use arbordb.Index.Ordered.{push_signed, float32, float64}

pub push_signed-append : (out bs : List ℕ) → push_signed out bs ≡ out ++ push_signed [] bs
unfolding push_signed
push_signed-append out [] = sym (append-nil_lem out)
  where
    append-nil_lem : (xs : List ℕ) → xs ++ [] ≡ xs
    append-nil_lem [] = refl
    append-nil_lem (x ∷ xs) = ap (λ t. x ∷ t) (append-nil_lem xs)
push_signed-append out (b ∷ bs) = append_assoc out _ bs

push_signed-tail :
    (n : ℕ) (xs t : List ℕ) → length xs ≡ suc n → push_signed [] (xs ++ t) ≡ push_signed [] xs ++ t
unfolding push_signed
push_signed-tail n [] t h = absurd (omega arith)
push_signed-tail n (x ∷ xs) t h = refl

-- Flipping the sign bit adds half of the range; what passes the top byte is cut off.
flip-be : (n v : ℕ) → push_signed [] (be (suc n) v) ≡ be (suc n) (v + 128 * 256 ^ n)
unfolding be
flip-be zero v =
    unfold push_signed in ap (λ (b : ℕ). b ∷ []) (flip_top (v % 256) (omega arith) ∙ omega arith)
flip-be (suc n) v =
    push_signed-tail n (be (suc n) (v / 256)) ((v % 256) ∷ []) (length-be (suc n) (v / 256))
    ∙ ap (λ xs. xs ++ (v % 256) ∷ []) (flip-be n (v / 256) ∙ ap (be (suc n)) high)
    ∙ ap (λ (b : ℕ). be (suc n) ((v + 128 * 256 ^ suc n) / 256) ++ b ∷ []) low
  where
    high : v / 256 + 128 * 256 ^ n ≡ (v + 128 * 256 ^ suc n) / 256
    high = omega (arith, pow-suc 256 n)

    low : v % 256 ≡ (v + 128 * 256 ^ suc n) % 256
    low = omega (arith, pow-suc 256 n)

be-add_range : (n v : ℕ) → be n (v + 256 ^ n) ≡ be n v
unfolding be
be-add_range zero v = refl
be-add_range (suc n) v =
    ap (λ (w : ℕ). be n w ++ ((v + 256 ^ suc n) % 256) ∷ []) high
    ∙ ap (λ xs. xs ++ ((v + 256 ^ suc n) % 256) ∷ []) (be-add_range n (v / 256))
    ∙ ap (λ (b : ℕ). be n (v / 256) ++ b ∷ []) low
  where
    high : (v + 256 ^ suc n) / 256 ≡ v / 256 + 256 ^ n
    high = omega (arith, pow-suc 256 n)

    low : (v + 256 ^ suc n) % 256 ≡ v % 256
    low = omega (arith, pow-suc 256 n)

-- The pattern with its sign bit flipped.
abbrev flipped : ℕ → ℕ → ℕ
flipped half v = if ltb v half then v + half else v - half

abbrev half_of : ℕ → ℕ
half_of n = 128 * 256 ^ n

range_eq : (n : ℕ) → 256 ^ suc n ≡ 2 * half_of n
range_eq n = omega (arith, pow-suc 256 n)

push_signed-be :
    (n v : ℕ) → v < 256 ^ suc n → push_signed [] (be (suc n) v) ≡ be (suc n) (flipped (half_of n) v)
push_signed-be n v h = flip-be n v ∙ elim (Bool-cases (ltb v (half_of n))) [
  | inl low ↦ rw low
  | inr high ↦ rw high (ap (be (suc n)) (wraps high) ∙ be-add_range (suc n) (v - half_of n))
]
  where
    wraps : ltb v (half_of n) ≡ false → v + half_of n ≡ v - half_of n + 256 ^ suc n
    wraps high = ground (arith, range_eq n)

compare-flipped :
    (half a b : ℕ)
    → a < 2 * half
    → b < 2 * half
    → compare (flipped half a) (flipped half b) ≡ compare_ℤ (to_signed half a) (to_signed half b)
compare-flipped half a b ha hb = ground arith

flipped-lt : (half v : ℕ) → v < 2 * half → flipped half v < 2 * half
flipped-lt half v h = ground arith

pub verdict-signed :
    (n a b : ℕ)
    → a < 256 ^ suc n
    → b < 256 ^ suc n
    → verdict (push_signed [] (be (suc n) a)) (push_signed [] (be (suc n) b))
      ≡ some (compare_ℤ (to_signed (128 * 256 ^ n) a) (to_signed (128 * 256 ^ n) b))
verdict-signed n a b ha hb =
    rw (push_signed-be n a ha, push_signed-be n b hb)
      (verdict-be (suc n) (flipped (half_of n) a) (flipped (half_of n) b)
          (omega (arith, range_eq n, flipped-lt (half_of n) a))
          (omega (arith, range_eq n, flipped-lt (half_of n) b))
        ∙ ap some (
            compare-flipped (half_of n) a b (omega (arith, range_eq n))
              (omega (arith, range_eq n))))

pub push_signed-IsByte :
    (n v : ℕ) → v < 256 ^ suc n → All (λ b. b < 256) (push_signed [] (be (suc n) v))
push_signed-IsByte n v h = rw (push_signed-be n v h) (be-IsByte (suc n) (flipped (half_of n) v))

-- The place of a float in the IEEE-754 total order: its magnitude, negated when the sign bit is set.
abbrev pub float_rank : ℕ → ℕ → ℤ
float_rank half bits = if ltb bits half then pos bits else negsuc (bits - half)

pub verdict-float32 :
    (a b : ℕ)
    → a < 2 ^ 32
    → b < 2 ^ 32
    → verdict (be 4 (float32 a)) (be 4 (float32 b))
      ≡ some (compare_ℤ (float_rank (2 ^ 31) a) (float_rank (2 ^ 31) b))
unfolding float32
verdict-float32 a b ha hb =
    verdict-be 4 (float32 a) (float32 b) (ground arith) (ground arith) ∙ ap some (ground arith)

pub verdict-float64 :
    (a b : ℕ)
    → a < 2 ^ 64
    → b < 2 ^ 64
    → verdict (be 8 (float64 a)) (be 8 (float64 b))
      ≡ some (compare_ℤ (float_rank (2 ^ 63) a) (float_rank (2 ^ 63) b))
unfolding float64
verdict-float64 a b ha hb =
    verdict-be 8 (float64 a) (float64 b) (ground arith) (ground arith) ∙ ap some (ground arith)
