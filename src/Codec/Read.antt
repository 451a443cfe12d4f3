-- ===== src/Codec/Read.antt =====
-- crates/arbordb/src/codec/read.rs: bounded random access to a blob. `usize` is 64 bits wide.
pub mod At
use arbordb.Common.{
  ℕ, ◌+◌, ◌-◌, ◌^◌, List, [], ◌∷◌, Option, none, some, ◌&&◌, length, take, drop, ltb, leb,
  if◌then◌else◌,
}
use arbordb.Common.{Result, ok, err, Error, corrupt, ◌>>=◌}
use arbordb.Common.Be.{from_be}

-- `usize::checked_add`
abbrev pub checked_add : ℕ → ℕ → Option ℕ
checked_add a b = if ltb (a + b) (2 ^ 64) then some (a + b) else none

-- `<[u8]>::get(from..to)`
abbrev pub get_range : List ℕ → ℕ → ℕ → Option (List ℕ)
get_range blob from to =
    if leb from to && leb to (length blob) then some (take (to - from) (drop from blob)) else none

abbrev pub ok_or_corrupt {ℓ} : {A : Type ℓ} → Option A → Result A
ok_or_corrupt none = err corrupt
ok_or_corrupt (some a) = ok a

-- `bytes[0]` of a run that is not empty.
abbrev pub head : List ℕ → ℕ
head [] = 0
head (b ∷ bs) = b

unfoldable pub slice : List ℕ → ℕ → ℕ → Result (List ℕ)
slice blob off len = do
  end ← ok_or_corrupt (checked_add off len)
  ok_or_corrupt (get_range blob off end)

unfoldable pub read_u8 : List ℕ → ℕ → Result ℕ
read_u8 blob off = do bytes ← slice blob off 1; ok (head bytes)

unfoldable pub read_u32 : List ℕ → ℕ → Result ℕ
read_u32 blob off = do bytes ← slice blob off 4; ok (from_be bytes)
