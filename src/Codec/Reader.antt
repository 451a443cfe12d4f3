-- ===== src/Codec/Reader.antt =====
-- crates/arbordb/src/codec/reader.rs: a forward-only cursor over a byte buffer. A method is a
-- `Decoder`, which returns the cursor after it. What the methods read is in the child modules.
pub mod Reads
use arbordb.Common.{
  ℕ, zero, suc, ◌+◌, ◌^◌, List, [], ◌∷◌, Option, none, some, length, drop, ltb, if◌then◌else◌,
}
use arbordb.Common.{Error, Result, ok, err, corrupt}
use arbordb.Common.Lists
use arbordb.Common.Be.{from_be}
use arbordb.Codec.Read.{checked_add, head}

pub record Reader : Type 0 where
  pub buf : List ℕ
  pub pos : ℕ

-- `Reader::new`
abbrev pub new : List ℕ → Reader
new buf = record { buf = buf; pos = 0 }

abbrev pub Decoder {ℓ} : Type ℓ → Type ℓ
Decoder A = Reader → Result (A × Reader)

module _ {ℓ} {A : Type ℓ} where
  abbrev pub pure : A → Decoder A
  pure a r = ok (a, r)

  abbrev pub fail : Error → Decoder A
  fail e r = err e

  -- `?` on a result that does not depend on the cursor.
  abbrev pub lift : Result A → Decoder A
  lift (ok a) r = ok (a, r)
  lift (err e) r = err e

infixl 5 ◌>>=◌ ◌>>◌
abbrev pub ◌>>=◌ {ℓ κ} : {A : Type ℓ} {B : Type κ} → Decoder A → (A → Decoder B) → Decoder B
◌>>=◌ m f r = elim (m r) [ ok (a, r') ↦ f a r' | err e ↦ err e ]

abbrev pub ◌>>◌ {ℓ κ} : {A : Type ℓ} {B : Type κ} → Decoder A → Decoder B → Decoder B
m >> k = m >>= λ _. k

-- The end is checked for overflow, then against the buffer.
unfoldable pub take : ℕ → Decoder (List ℕ)
take n r = elim (checked_add r.pos n) [
  | none ↦ err corrupt
  | some end ↦
      if ltb (length r.buf) end
      then err corrupt
      else ok (Lists.take n (drop r.pos r.buf), record r { pos = end })
]

unfoldable pub u8 : Decoder ℕ
u8 = do bytes ← take 1; pure (head bytes)

unfoldable pub u32 : Decoder ℕ
u32 = do bytes ← take 4; pure (from_be bytes)

unfoldable pub u64 : Decoder ℕ
u64 = do bytes ← take 8; pure (from_be bytes)

unfoldable pub array : ℕ → Decoder (List ℕ)
array n = take n

unfoldable pub bytes : Decoder (List ℕ)
bytes = do n ← u32; take n

abbrev pub position : Reader → ℕ
position r = r.pos

-- A `for _ in 0..count` loop that reads one item a round and collects them in order.
unfoldable pub repeat {ℓ} : {A : Type ℓ} → Decoder A → ℕ → Decoder (List A)
repeat item zero = pure []
repeat item (suc n) = do x ← item; xs ← repeat item n; pure (x ∷ xs)
