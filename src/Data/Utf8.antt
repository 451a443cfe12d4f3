-- ===== src/Data/Utf8.antt =====
-- Rust's `str` is its UTF-8 bytes. `std::str::from_utf8` accepts the well-formed sequences only: no
-- overlong form, no surrogate, nothing above U+10FFFF.
use arbordb.Common.{
  ℕ, zero, suc, ◌≡◌, List, [], ◌∷◌, Option, none, some, Bool, true, false, ◌&&◌, ltb, leb, ◌==◌,
  if◌then◌else◌, Result, ok, err, corrupt,
}

abbrev pub Text : Type 0
Text = List ℕ

-- How many bytes the current character still wants, and the range of the next one.
abbrev State : Type 0
State = ℕ × ℕ × ℕ

abbrev within : ℕ → ℕ → ℕ → Bool
within lo hi b = leb lo b && leb b hi

first_byte : ℕ → Option State
first_byte b =
    if ltb b 0x80
    then some (0, 0x80, 0xbf)
    else if within 0xc2 0xdf b
    then some (1, 0x80, 0xbf)
    else if b == 0xe0
    then some (2, 0xa0, 0xbf)
    else if b == 0xed
    then some (2, 0x80, 0x9f)
    else if within 0xe1 0xef b
    then some (2, 0x80, 0xbf)
    else if b == 0xf0
    then some (3, 0x90, 0xbf)
    else if within 0xf1 0xf3 b
    then some (3, 0x80, 0xbf)
    else if b == 0xf4
    then some (3, 0x80, 0x8f)
    else none

next_byte : State → ℕ → Option State
unfolding first_byte
next_byte (zero, lo, hi) b = first_byte b
next_byte (suc k, lo, hi) b = if within lo hi b then some (k, 0x80, 0xbf) else none

well_formed : State → List ℕ → Bool
unfolding next_byte
well_formed (k, lo, hi) [] = k == 0
well_formed state (b ∷ bs) = elim (next_byte state b) [
  | none ↦ false
  | some state' ↦ well_formed state' bs
]

unfoldable pub is_utf8 : List ℕ → Bool
unfolding well_formed
is_utf8 bytes = well_formed (0, 0x80, 0xbf) bytes

abbrev pub IsUtf8 : List ℕ → Type 0
IsUtf8 bytes = is_utf8 bytes ≡ true

-- `from_utf8(bytes)` with its error mapped to `Corrupt`.
unfoldable pub from_utf8 : List ℕ → Result Text
from_utf8 bytes = if is_utf8 bytes then ok bytes else err corrupt

pub from_utf8_lem : (s : Text) → IsUtf8 s → from_utf8 s ≡ ok s
unfolding from_utf8
from_utf8_lem s h = rw h
