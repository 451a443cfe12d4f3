-- ===== src/Index/Ordered.antt =====
-- crates/arbordb/src/index/ordered.rs, with the optional bignum features off. The tags of the index
-- encoding are those of the storage encoding.
pub mod Numbers
pub mod Text
pub mod Spec
pub mod Order
use Prim.Native.Nat.{bit_xor}
use arbordb.Common.{
  ℕ, ◌+◌, ◌-◌, ◌*◌, ◌^◌, List, [], ◌∷◌, ◌++◌, Bool, true, false, length, take, drop, leb, ◌==◌,
  if◌then◌else◌,
}
use arbordb.Common.Be.{be}
use arbordb.Common.Lex.{complement}
use arbordb.Common.Int.{ℤ, pos_part, neg_part, sub_ℕ, to_signed, of_signed}
use arbordb.Data.Scalar.{
  Scalar, null, bool, i8, i16, i32, i64, i128, u8, u16, u32, u64, u128, f32, f64, str, bytes, uuid,
  date, time, datetime, duration, byte_of_bool,
}
use arbordb.Data.Scalar.Tag

-- `out.push(be[0] ^ 0x80)` and the other bytes; the code calls it on integers of one byte or more.
unfoldable pub push_signed : List ℕ → List ℕ → List ℕ
push_signed out [] = out
push_signed out (b ∷ bs) = (out ++ bit_xor b 0x80 ∷ []) ++ bs

unfoldable pub signed : List ℕ → ℕ → List ℕ → List ℕ
unfolding push_signed
signed out tag be = push_signed (out ++ tag ∷ []) be

unfoldable pub unsigned : List ℕ → ℕ → List ℕ → List ℕ
unsigned out tag be = (out ++ tag ∷ []) ++ be

-- `bits & (1 << 63) != 0` says that the pattern is 2^63 or more; there `!bits` is its distance from
-- the last pattern, and elsewhere `bits | (1 << 63)` adds 2^63.
unfoldable pub float64 : ℕ → ℕ
float64 bits = if leb (2 ^ 63) bits then 2 ^ 64 - 1 - bits else bits + 2 ^ 63

unfoldable pub float32 : ℕ → ℕ
float32 bits = if leb (2 ^ 31) bits then 2 ^ 32 - 1 - bits else bits + 2 ^ 31

escape : List ℕ → List ℕ
escape [] = []
escape (b ∷ bs) = let rest = escape bs in if b == 0 then 0 ∷ 0xff ∷ rest else b ∷ rest

-- The loop pushes each byte, with 0xff after a zero; then the two-byte end.
unfoldable pub ordered_bytes : List ℕ → List ℕ → List ℕ
unfolding escape
ordered_bytes out bs = (out ++ escape bs) ++ 0 ∷ 1 ∷ []

-- `i128::from(secs) * 1_000_000_000 + i128::from(nanos)`
abbrev pub total_nanos : ℕ → ℕ → ℤ
total_nanos secs nanos =
    let s = to_signed (2 ^ 63) secs in
    let n = to_signed (2 ^ 31) nanos in
    sub_ℕ (pos_part s * 1000000000 + pos_part n) (neg_part s * 1000000000 + neg_part n)

unfoldable pub encode_ascending : List ℕ → Scalar → List ℕ
unfolding signed unsigned float32 float64 ordered_bytes
encode_ascending out null = out ++ Tag.null ∷ []
encode_ascending out (bool v) = (out ++ Tag.bool ∷ []) ++ byte_of_bool v ∷ []
encode_ascending out (i8 v) = signed out Tag.i8 (be 1 v)
encode_ascending out (i16 v) = signed out Tag.i16 (be 2 v)
encode_ascending out (i32 v) = signed out Tag.i32 (be 4 v)
encode_ascending out (i64 v) = signed out Tag.i64 (be 8 v)
encode_ascending out (i128 v) = signed out Tag.i128 (be 16 v)
encode_ascending out (u8 v) = (out ++ Tag.u8 ∷ []) ++ v ∷ []
encode_ascending out (u16 v) = unsigned out Tag.u16 (be 2 v)
encode_ascending out (u32 v) = unsigned out Tag.u32 (be 4 v)
encode_ascending out (u64 v) = unsigned out Tag.u64 (be 8 v)
encode_ascending out (u128 v) = unsigned out Tag.u128 (be 16 v)
encode_ascending out (f32 v) = unsigned out Tag.f32 (be 4 (float32 v))
encode_ascending out (f64 v) = unsigned out Tag.f64 (be 8 (float64 v))
encode_ascending out (str v) = ordered_bytes (out ++ Tag.str ∷ []) v
encode_ascending out (bytes v) = ordered_bytes (out ++ Tag.bytes ∷ []) v
encode_ascending out (uuid v) = (out ++ Tag.uuid ∷ []) ++ v
encode_ascending out (date days) = signed out Tag.date (be 4 days)
encode_ascending out (time secs nanos) = ((out ++ Tag.time ∷ []) ++ be 4 secs) ++ be 4 nanos
encode_ascending out (datetime days secs nanos) =
    (push_signed (out ++ Tag.datetime ∷ []) (be 4 days) ++ be 4 secs) ++ be 4 nanos
encode_ascending out (duration secs nanos) =
    signed out Tag.duration (be 16 (of_signed (2 ^ 127) (total_nanos secs nanos)))

-- The bytes that were just written are inverted when the column descends.
unfoldable pub encode_scalar : List ℕ → Scalar → Bool → List ℕ
encode_scalar out scalar descending =
    let start = length out in
    let written = encode_ascending out scalar in
    if descending then take start written ++ complement (drop start written) else written
