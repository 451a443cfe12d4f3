-- ===== src/Acl/Grades.antt =====
-- `Rights` of acl.rs: a grade, its order, and its 3-bit mask.
use Prim.Native.Nat.{bit_and}
use arbordb.Common.{ℕ, ◌<◌, ◌≡◌, refl, Bool, true, false, not, ◌==◌, leb, if◌then◌else◌, arith}
use arbordb.Common.Bits.{passes, passes-lt}

-- `Rights::None` is `no_access`.
pub data Rights : Type 0 where
  no_access : Rights
  access : Rights
  modify : Rights
  delete : Rights

-- The derived order is that of the declaration.
abbrev pub rank : Rights → ℕ
rank no_access = 0
rank access = 1
rank modify = 2
rank delete = 3

unfoldable pub includes : Rights → Rights → Bool
includes grade needed = leb (rank needed) (rank grade)

unfoldable pub to_bits : Rights → ℕ
to_bits no_access = 0
to_bits access = 1
to_bits modify = 3
to_bits delete = 7

unfoldable pub from_bits : ℕ → Rights
from_bits bits =
    if bit_and bits 7 == 7
    then delete
    else if bit_and bits 3 == 3
    then modify
    else if bit_and bits 1 == 1
    then access
    else no_access

pub from_bits-to_bits : (grade : Rights) → from_bits (to_bits grade) ≡ grade
unfolding from_bits to_bits
from_bits-to_bits no_access = refl
from_bits-to_bits access = refl
from_bits-to_bits modify = refl
from_bits-to_bits delete = refl

-- Whether every bit of a grade is present.
abbrev pub has_bits : ℕ → Rights → Bool
has_bits bits grade = bit_and bits (to_bits grade) == to_bits grade

agree : Bool → Bool → Bool
agree true b = b
agree false b = not b

agree_eq : (a b : Bool) → agree a b ≡ true → a ≡ b
unfolding agree
agree_eq a b h = ground arith

-- The two sides for one grade.
same_grades : Rights → ℕ → Bool
same_grades grade bits = agree (includes (from_bits bits) grade) (has_bits bits grade)

strongest_table : (grade : Rights) → passes (same_grades grade) 256 ≡ true
unfolding passes same_grades agree includes from_bits to_bits
strongest_table no_access = refl
strongest_table access = refl
strongest_table modify = refl
strongest_table delete = refl

-- The grade decoded from any byte includes exactly the grades all of whose bits the byte has.
pub includes-from_bits :
    (bits : ℕ) (grade : Rights) → bits < 256 → includes (from_bits bits) grade ≡ has_bits bits grade
unfolding same_grades
includes-from_bits bits grade h =
    agree_eq (includes (from_bits bits) grade) (has_bits bits grade)
      (passes-lt (same_grades grade) 256 bits h (strongest_table grade))
