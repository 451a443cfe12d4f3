-- ===== src/Index/Ordered/Spec.antt =====
-- The order of scalars that the index encoding has to keep: between two kinds the order of the tags,
-- within a kind the order of the values.
use arbordb.Common.{ℕ, ◌^◌, compare, Ordering}
use arbordb.Common.Lex.{lex, then_cmp}
use arbordb.Common.Int.{compare_ℤ, to_signed}
use arbordb.Index.Ordered.{total_nanos}
use arbordb.Index.Ordered.Numbers.{float_rank}
use arbordb.Data.Scalar.{
  Scalar, null, bool, i8, i16, i32, i64, i128, u8, u16, u32, u64, u128, f32, f64, str, bytes, uuid,
  date, time, datetime, duration, byte_of_bool,
}
use arbordb.Data.Scalar.Tag

unfoldable pub tag_of : Scalar → ℕ
tag_of null = Tag.null
tag_of (bool _) = Tag.bool
tag_of (i8 _) = Tag.i8
tag_of (i16 _) = Tag.i16
tag_of (i32 _) = Tag.i32
tag_of (i64 _) = Tag.i64
tag_of (i128 _) = Tag.i128
tag_of (u8 _) = Tag.u8
tag_of (u16 _) = Tag.u16
tag_of (u32 _) = Tag.u32
tag_of (u64 _) = Tag.u64
tag_of (u128 _) = Tag.u128
tag_of (f32 _) = Tag.f32
tag_of (f64 _) = Tag.f64
tag_of (str _) = Tag.str
tag_of (bytes _) = Tag.bytes
tag_of (uuid _) = Tag.uuid
tag_of (date _) = Tag.date
tag_of (time _ _) = Tag.time
tag_of (datetime _ _ _) = Tag.datetime
tag_of (duration _ _) = Tag.duration

-- Two's-complement numbers of `8 * w` bits.
abbrev pub compare_signed : ℕ → ℕ → ℕ → Ordering
compare_signed half a b = compare_ℤ (to_signed half a) (to_signed half b)

unfoldable pub compare_same : Scalar → Scalar → Ordering
compare_same (bool a) (bool b) = compare (byte_of_bool a) (byte_of_bool b)
compare_same (i8 a) (i8 b) = compare_signed (2 ^ 7) a b
compare_same (i16 a) (i16 b) = compare_signed (2 ^ 15) a b
compare_same (i32 a) (i32 b) = compare_signed (2 ^ 31) a b
compare_same (i64 a) (i64 b) = compare_signed (2 ^ 63) a b
compare_same (i128 a) (i128 b) = compare_signed (2 ^ 127) a b
compare_same (u8 a) (u8 b) = compare a b
compare_same (u16 a) (u16 b) = compare a b
compare_same (u32 a) (u32 b) = compare a b
compare_same (u64 a) (u64 b) = compare a b
compare_same (u128 a) (u128 b) = compare a b
compare_same (f32 a) (f32 b) = compare_ℤ (float_rank (2 ^ 31) a) (float_rank (2 ^ 31) b)
compare_same (f64 a) (f64 b) = compare_ℤ (float_rank (2 ^ 63) a) (float_rank (2 ^ 63) b)
compare_same (str a) (str b) = lex a b
compare_same (bytes a) (bytes b) = lex a b
compare_same (uuid a) (uuid b) = lex a b
compare_same (date a) (date b) = compare_signed (2 ^ 31) a b
compare_same (time s n) (time s' n') = then_cmp (compare s s') (compare n n')
compare_same (datetime d s n) (datetime d' s' n') =
    then_cmp (compare_signed (2 ^ 31) d d') (then_cmp (compare s s') (compare n n'))
compare_same (duration s n) (duration s' n') = compare_ℤ (total_nanos s n) (total_nanos s' n')
compare_same _ _ = Ordering.eq

unfoldable pub compare_scalar : Scalar → Scalar → Ordering
compare_scalar a b = then_cmp (compare (tag_of a) (tag_of b)) (compare_same a b)
