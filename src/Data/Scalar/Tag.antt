-- ===== src/Data/Scalar/Tag.antt =====
-- The tags of `Scalar::encode`, `mod tag` of crates/arbordb/src/data/scalar.rs; the same numbers lead
-- the index encoding of crates/arbordb/src/index/ordered.rs.
use arbordb.Common.{ℕ}

abbrev pub null : ℕ
null = 0

abbrev pub bool : ℕ
bool = 1

abbrev pub i8 : ℕ
i8 = 2

abbrev pub i16 : ℕ
i16 = 3

abbrev pub i32 : ℕ
i32 = 4

abbrev pub i64 : ℕ
i64 = 5

abbrev pub i128 : ℕ
i128 = 6

abbrev pub u8 : ℕ
u8 = 7

abbrev pub u16 : ℕ
u16 = 8

abbrev pub u32 : ℕ
u32 = 9

abbrev pub u64 : ℕ
u64 = 10

abbrev pub u128 : ℕ
u128 = 11

abbrev pub f32 : ℕ
f32 = 12

abbrev pub f64 : ℕ
f64 = 13

abbrev pub str : ℕ
str = 14

abbrev pub bytes : ℕ
bytes = 15

abbrev pub uuid : ℕ
uuid = 16

abbrev pub date : ℕ
date = 17

abbrev pub time : ℕ
time = 18

abbrev pub datetime : ℕ
datetime = 19

abbrev pub duration : ℕ
duration = 20
