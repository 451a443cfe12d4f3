-- ===== src/Common/Be.antt =====
-- Big-endian integers: `to_be_bytes` and `from_be_bytes` of Rust's unsigned integers.
use native.Mathlib.Nat.{pow-suc}
use Prim.Native.Nat.{ℕ, zero, suc, ◌+◌, ◌*◌, ◌/◌, ◌%◌, ◌^◌, ◌<◌, compare}
use mathlib.Core.Path.{◌≡◌, refl, ◌∙◌}
use mathlib.Core.Option.{some}
use mathlib.Core.List.{List, [], ◌∷◌, ◌++◌}
use native.Mathlib.Omega.{arith}
use arbordb.Common.Lists.{length, length-append, All, All-append}
use arbordb.Common.Lex.{verdict, verdict-append, and_then}

-- The low `n` bytes of `v`, the highest first.
unfoldable pub be : ℕ → ℕ → List ℕ
be zero v = []
be (suc n) v = be n (v / 256) ++ (v % 256) ∷ []

from_be_acc : ℕ → List ℕ → ℕ
from_be_acc acc [] = acc
from_be_acc acc (b ∷ bs) = from_be_acc (acc * 256 + b) bs

unfoldable pub from_be : List ℕ → ℕ
unfolding from_be_acc
from_be bs = from_be_acc 0 bs

from_be_acc-snoc :
    (acc b : ℕ) (bs : List ℕ) → from_be_acc acc (bs ++ b ∷ []) ≡ from_be_acc acc bs * 256 + b
unfolding from_be_acc
from_be_acc-snoc acc b [] = refl
from_be_acc-snoc acc b (c ∷ cs) = from_be_acc-snoc (acc * 256 + c) b cs

pub length-be : (n v : ℕ) → length (be n v) ≡ n
unfolding be
length-be zero v = refl
length-be (suc n) v =
    omega (arith, length-append (be n (v / 256)) ((v % 256) ∷ []), length-be n (v / 256))

pub from_be-be : (n v : ℕ) → v < 256 ^ n → from_be (be n v) ≡ v
unfolding be from_be
from_be-be zero v h = omega arith
from_be-be (suc n) v h =
    from_be_acc-snoc 0 (v % 256) (be n (v / 256))
    ∙ omega (arith, from_be-be n (v / 256) (omega (arith, pow-suc 256 n)))

pub be-IsByte : (n v : ℕ) → All (λ b. b < 256) (be n v)
unfolding be
be-IsByte zero v = tt
be-IsByte (suc n) v =
    All-append (λ b. b < 256) (be n (v / 256)) ((v % 256) ∷ []) (be-IsByte n (v / 256))
      (omega arith)

snoc_cmp :
    (a b : ℕ)
    → and_then (compare (a / 256) (b / 256)) (verdict ((a % 256) ∷ []) ((b % 256) ∷ []))
      ≡ some (compare a b)
unfolding verdict
snoc_cmp a b = ground arith

-- Big-endian bytes compare as the numbers do.
pub verdict-be :
    (n a b : ℕ) → a < 256 ^ n → b < 256 ^ n → verdict (be n a) (be n b) ≡ some (compare a b)
unfolding be
verdict-be zero a b ha hb = unfold verdict in ground arith
verdict-be (suc n) a b ha hb =
    verdict-append (be n (a / 256)) (be n (b / 256)) _ _ (compare (a / 256) (b / 256)) (
      verdict-be n (a / 256) (b / 256) (omega (arith, pow-suc 256 n))
        (omega (arith, pow-suc 256 n)))
    ∙ snoc_cmp a b

-- A cast to 32 bits keeps a number that fits.
pub small_mod : (n : ℕ) → n < 2 ^ 32 → n % 2 ^ 32 ≡ n
small_mod n h = omega arith
