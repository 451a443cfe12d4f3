-- ===== src/Codec/Read/At.antt =====
-- `At blob off bytes`: the blob holds these bytes at this offset. What the reads of read.rs return
-- there, and what keeps them in place.
use arbordb.Common.{
  subst, ℕ, zero, suc, ◌+◌, ◌-◌, ◌^◌, ◌≤◌, ◌<◌, ◌≡◌, refl, ap, List, [], ◌∷◌, ◌++◌, length, take,
  drop, arith, ok,
}
use arbordb.Common.Be.{be, length-be, from_be-be}
use arbordb.Codec.Read.{slice, read_u8, read_u32}

abbrev pub StartsWith : List ℕ → List ℕ → Type 0
StartsWith blob [] = Unit
StartsWith [] (y ∷ ys) = ⊥
StartsWith (x ∷ xs) (y ∷ ys) = (x ≡ y) × StartsWith xs ys

abbrev pub At : List ℕ → ℕ → List ℕ → Type 0
At blob zero ys = StartsWith blob ys
At [] (suc off) ys = ⊥
At (x ∷ xs) (suc off) ys = At xs off ys

StartsWith-append : (xs more ys : List ℕ) → StartsWith xs ys → StartsWith (xs ++ more) ys
StartsWith-append xs more [] h = tt
StartsWith-append [] more (y ∷ ys) h = absurd h
StartsWith-append (x ∷ xs) more (y ∷ ys) h = (h.0, StartsWith-append xs more ys h.1)

-- Appending to the blob keeps what it holds.
pub At-append : (xs more : List ℕ) (off : ℕ) (ys : List ℕ) → At xs off ys → At (xs ++ more) off ys
At-append xs more zero ys h = StartsWith-append xs more ys h
At-append [] more (suc off) ys h = absurd h
At-append (x ∷ xs) more (suc off) ys h = At-append xs more off ys h

StartsWith-self : (ys : List ℕ) → StartsWith ys ys
StartsWith-self [] = tt
StartsWith-self (y ∷ ys) = (refl, StartsWith-self ys)

-- What is appended stands at the old length.
pub At-end : (xs ys : List ℕ) → At (xs ++ ys) (length xs) ys
At-end [] ys = StartsWith-self ys
At-end (x ∷ xs) ys = At-end xs ys

StartsWith-left : (blob xs ys : List ℕ) → StartsWith blob (xs ++ ys) → StartsWith blob xs
StartsWith-left blob [] ys h = tt
StartsWith-left [] (x ∷ xs) ys h = absurd h
StartsWith-left (b ∷ bs) (x ∷ xs) ys h = (h.0, StartsWith-left bs xs ys h.1)

StartsWith-right : (blob xs ys : List ℕ) → StartsWith blob (xs ++ ys) → At blob (length xs) ys
StartsWith-right blob [] ys h = h
StartsWith-right [] (x ∷ xs) ys h = absurd h
StartsWith-right (b ∷ bs) (x ∷ xs) ys h = StartsWith-right bs xs ys h.1

pub At-left : (blob : List ℕ) (off : ℕ) (xs ys : List ℕ) → At blob off (xs ++ ys) → At blob off xs
At-left blob zero xs ys h = StartsWith-left blob xs ys h
At-left [] (suc off) xs ys h = absurd h
At-left (b ∷ bs) (suc off) xs ys h = At-left bs off xs ys h

suc_add : (off n : ℕ) → suc off + n ≡ suc (off + n)
suc_add off n = omega arith

pub At-right :
    (blob : List ℕ) (off : ℕ) (xs ys : List ℕ)
    → At blob off (xs ++ ys)
    → At blob (off + length xs) ys
At-right blob zero xs ys h = rw add-zero_left (StartsWith-right blob xs ys h)
  where
    add-zero_left : 0 + length xs ≡ length xs
    add-zero_left = omega arith
At-right [] (suc off) xs ys h = absurd h
At-right (b ∷ bs) (suc off) xs ys h = rw (suc_add off (length xs)) (At-right bs off xs ys h)

StartsWith-take : (blob ys : List ℕ) → StartsWith blob ys → take (length ys) blob ≡ ys
StartsWith-take blob [] h = refl
StartsWith-take [] (y ∷ ys) h = absurd h
StartsWith-take (x ∷ xs) (y ∷ ys) h = rw (h.0, StartsWith-take xs ys h.1)

StartsWith-length : (blob ys : List ℕ) → StartsWith blob ys → length ys ≤ length blob
StartsWith-length blob [] h = omega arith
StartsWith-length [] (y ∷ ys) h = absurd h
StartsWith-length (x ∷ xs) (y ∷ ys) h = omega (arith, StartsWith-length xs ys h.1)

take-drop-At :
    (blob : List ℕ) (off : ℕ) (ys : List ℕ) → At blob off ys → take (length ys) (drop off blob) ≡ ys
take-drop-At blob zero ys h = StartsWith-take blob ys h
take-drop-At [] (suc off) ys h = absurd h
take-drop-At (x ∷ xs) (suc off) ys h = take-drop-At xs off ys h

pub At-length :
    (blob : List ℕ) (off : ℕ) (ys : List ℕ) → At blob off ys → off + length ys ≤ length blob
At-length blob zero ys h = omega (arith, StartsWith-length blob ys h)
At-length [] (suc off) ys h = absurd h
At-length (x ∷ xs) (suc off) ys h = omega (arith, At-length xs off ys h)

-- What is left of the blob from the offset on begins with the bytes.
pub drop-At :
    (blob : List ℕ) (off : ℕ) (ys : List ℕ)
    → At blob off ys
    → (rest : List ℕ) × (drop off blob ≡ ys ++ rest)
drop-At blob zero ys h = begins blob ys h
  where
    begins : (blob ys : List ℕ) → StartsWith blob ys → (rest : List ℕ) × (blob ≡ ys ++ rest)
    begins blob [] h = (blob, refl)
    begins [] (y ∷ ys) h = absurd h
    begins (x ∷ xs) (y ∷ ys) h = let (rest, e) = begins xs ys h.1 in (rest, rw (h.0, e))
drop-At [] (suc off) ys h = absurd h
drop-At (x ∷ xs) (suc off) ys h = drop-At xs off ys h

pub slice-At :
    (blob : List ℕ) (off : ℕ) (ys : List ℕ)
    → length blob < 2 ^ 64
    → At blob off ys
    → slice blob off (length ys) ≡ ok ys
unfolding slice
slice-At blob off ys small h = ground (
  arith,
  At-length blob off ys h,
  take-drop-At blob off ys h,
  ap (λ (n : ℕ). take n (drop off blob)) (add_sub off (length ys)),
)
  where
    add_sub : (a b : ℕ) → a + b - a ≡ b
    add_sub a b = omega arith

pub read_u8-At :
    (blob : List ℕ) (off b : ℕ)
    → length blob < 2 ^ 64
    → At blob off (b ∷ [])
    → read_u8 blob off ≡ ok b
unfolding read_u8
read_u8-At blob off b small h = rw (slice-At blob off (b ∷ []) small h)

pub read_u32-At :
    (blob : List ℕ) (off v : ℕ)
    → length blob < 2 ^ 64
    → v < 2 ^ 32
    → At blob off (be 4 v)
    → read_u32 blob off ≡ ok v
unfolding read_u32
read_u32-At blob off v small fits h =
    let e : slice blob off 4 ≡ ok (be 4 v) =
      rw (length-be 4 v) at (slice-At blob off (be 4 v) small h) in
    rw (e, from_be-be 4 v fits)

-- What follows a run of known length.
pub At-behind :
    (b : List ℕ) (off n : ℕ) (xs ys : List ℕ)
    → length xs ≡ n
    → At b off (xs ++ ys)
    → At b (off + n) ys
At-behind b off n xs ys e h = subst (λ k. At b (off + k) ys) e (At-right b off xs ys h)

pub fits : (b : List ℕ) → length b < 2 ^ 32 → length b < 2 ^ 64
fits b small = omega arith
