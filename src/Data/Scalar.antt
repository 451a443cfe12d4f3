-- ===== src/Data/Scalar.antt =====
-- crates/arbordb/src/data/scalar.rs and time.rs, with the optional bignum features off.
--
-- An integer or a float is its bit pattern, a `Uuid` its 16 bytes. The types of `chrono` are what the
-- code reads of them: the days of a date, the seconds and nanoseconds of a time, the seconds and
-- nanoseconds of a duration; which of these `chrono` accepts is the parameter `Chrono`.
pub mod Tag
pub mod RoundTrip
use arbordb.Common.{
  ℕ, ◌%◌, ◌^◌, ◌<◌, ◌≡◌, List, [], ◌∷◌, ◌++◌, Option, none, some, Bool, true, false, not, length,
  ◌==◌, if◌then◌else◌, All, corrupt, panicked,
}
use arbordb.Common.Be.{be, from_be}
use arbordb.Codec.Putters.{put_bytes}
use arbordb.Codec.Reader.{
  Decoder, pure, fail, lift, ◌>>=◌, u8 as read_u8, u32 as read_u32, u64 as read_u64,
  array as read_array, bytes as read_bytes,
}
use arbordb.Data.Utf8.{Text, IsUtf8, from_utf8}

-- `NaiveDate::from_num_days_from_ce_opt`, `NaiveTime::from_num_seconds_from_midnight_opt`, and
-- `TimeDelta::seconds(s) + TimeDelta::nanoseconds(n)`, which panics (`none`) out of its range.
pub record Chrono : Type 0 where
  pub date_in_range : ℕ → Bool
  pub time_in_range : ℕ → ℕ → Bool
  pub duration_of : ℕ → ℕ → Option (ℕ × ℕ)

pub data Scalar : Type 0 where
  null : Scalar
  bool : Bool → Scalar
  i8 i16 i32 i64 i128 u8 u16 u32 u64 u128 f32 f64 : ℕ → Scalar
  str : Text → Scalar
  bytes : List ℕ → Scalar
  uuid : List ℕ → Scalar
  date : ℕ → Scalar
  time : ℕ → ℕ → Scalar
  datetime : ℕ → ℕ → ℕ → Scalar
  duration : ℕ → ℕ → Scalar

abbrev pub byte_of_bool : Bool → ℕ
byte_of_bool true = 1
byte_of_bool false = 0

-- `Scalar::encode`
unfoldable pub encode : Scalar → List ℕ → List ℕ
encode null buf = buf ++ Tag.null ∷ []
encode (bool v) buf = (buf ++ Tag.bool ∷ []) ++ byte_of_bool v ∷ []
encode (i8 v) buf = (buf ++ Tag.i8 ∷ []) ++ be 1 v
encode (i16 v) buf = (buf ++ Tag.i16 ∷ []) ++ be 2 v
encode (i32 v) buf = (buf ++ Tag.i32 ∷ []) ++ be 4 v
encode (i64 v) buf = (buf ++ Tag.i64 ∷ []) ++ be 8 v
encode (i128 v) buf = (buf ++ Tag.i128 ∷ []) ++ be 16 v
encode (u8 v) buf = (buf ++ Tag.u8 ∷ []) ++ v ∷ []
encode (u16 v) buf = (buf ++ Tag.u16 ∷ []) ++ be 2 v
encode (u32 v) buf = (buf ++ Tag.u32 ∷ []) ++ be 4 v
encode (u64 v) buf = (buf ++ Tag.u64 ∷ []) ++ be 8 v
encode (u128 v) buf = (buf ++ Tag.u128 ∷ []) ++ be 16 v
encode (f32 v) buf = (buf ++ Tag.f32 ∷ []) ++ be 4 v
encode (f64 v) buf = (buf ++ Tag.f64 ∷ []) ++ be 8 v
encode (str v) buf = put_bytes (buf ++ Tag.str ∷ []) v
encode (bytes v) buf = put_bytes (buf ++ Tag.bytes ∷ []) v
encode (uuid v) buf = (buf ++ Tag.uuid ∷ []) ++ v
encode (date days) buf = (buf ++ Tag.date ∷ []) ++ be 4 days
encode (time secs nanos) buf = ((buf ++ Tag.time ∷ []) ++ be 4 secs) ++ be 4 nanos
encode (datetime days secs nanos) buf =
    (((buf ++ Tag.datetime ∷ []) ++ be 4 days) ++ be 4 secs) ++ be 4 nanos
encode (duration secs nanos) buf = ((buf ++ Tag.duration ∷ []) ++ be 8 secs) ++ be 4 nanos

module _ (chrono : Chrono) where
  open chrono use {date_in_range, time_in_range, duration_of}

  -- `decode_time` of time.rs
  unfoldable pub decode_time : Decoder (ℕ × ℕ)
  decode_time = do
    secs ← read_u32
    nanos ← read_u32
    if time_in_range secs nanos then pure (secs, nanos) else fail corrupt

  decode_date : Decoder ℕ
  decode_date = do
    raw ← read_array 4
    if date_in_range (from_be raw) then pure (from_be raw) else fail corrupt

  abbrev duration_or_panic : Option (ℕ × ℕ) → Decoder Scalar
  duration_or_panic none = fail panicked
  duration_or_panic (some (secs, nanos)) = pure (duration secs nanos)

  -- The arms of `Scalar::decode`, after the tag is read.
  decode_body : ℕ → Decoder Scalar
  unfolding decode_date
  decode_body tag =
      if tag == Tag.null
      then pure null
      else if tag == Tag.bool
      then (do b ← read_u8; pure (bool (not (b == 0))))
      else if tag == Tag.i8
      then (do raw ← read_array 1; pure (i8 (from_be raw)))
      else if tag == Tag.i16
      then (do raw ← read_array 2; pure (i16 (from_be raw)))
      else if tag == Tag.i32
      then (do raw ← read_array 4; pure (i32 (from_be raw)))
      else if tag == Tag.i64
      then (do raw ← read_array 8; pure (i64 (from_be raw)))
      else if tag == Tag.i128
      then (do raw ← read_array 16; pure (i128 (from_be raw)))
      else if tag == Tag.u8
      then (do v ← read_u8; pure (u8 v))
      else if tag == Tag.u16
      then (do raw ← read_array 2; pure (u16 (from_be raw)))
      else if tag == Tag.u32
      then (do v ← read_u32; pure (u32 v))
      else if tag == Tag.u64
      then (do v ← read_u64; pure (u64 v))
      else if tag == Tag.u128
      then (do raw ← read_array 16; pure (u128 (from_be raw)))
      else if tag == Tag.f32
      then (do raw ← read_array 4; pure (f32 (from_be raw)))
      else if tag == Tag.f64
      then (do raw ← read_array 8; pure (f64 (from_be raw)))
      else if tag == Tag.str
      then (do raw ← read_bytes; s ← lift (from_utf8 raw); pure (str s))
      else if tag == Tag.bytes
      then (do raw ← read_bytes; pure (bytes raw))
      else if tag == Tag.uuid
      then (do raw ← read_array 16; pure (uuid raw))
      else if tag == Tag.date
      then (do days ← decode_date; pure (date days))
      else if tag == Tag.time
      then (do (secs, nanos) ← decode_time; pure (time secs nanos))
      else if tag == Tag.datetime
      then (do days ← decode_date; (secs, nanos) ← decode_time; pure (datetime days secs nanos))
      else if tag == Tag.duration
      then (do
        secs ← read_array 8
        nanos ← read_array 4
        duration_or_panic (duration_of (from_be secs) (from_be nanos)))
      else fail corrupt

  -- `Scalar::decode`
  unfoldable pub decode : Decoder Scalar
  unfolding decode_body decode_time
  decode = do tag ← read_u8; decode_body tag

  -- The values that the Rust type can hold: the width of a number, the range that `chrono` accepts,
  -- and a length that the 32-bit prefix can state.
  abbrev pub IsValid : Scalar → Type 0
  IsValid null = Unit
  IsValid (bool v) = Unit
  IsValid (i8 v) = v < 2 ^ 8
  IsValid (i16 v) = v < 2 ^ 16
  IsValid (i32 v) = v < 2 ^ 32
  IsValid (i64 v) = v < 2 ^ 64
  IsValid (i128 v) = v < 2 ^ 128
  IsValid (u8 v) = v < 2 ^ 8
  IsValid (u16 v) = v < 2 ^ 16
  IsValid (u32 v) = v < 2 ^ 32
  IsValid (u64 v) = v < 2 ^ 64
  IsValid (u128 v) = v < 2 ^ 128
  IsValid (f32 v) = v < 2 ^ 32
  IsValid (f64 v) = v < 2 ^ 64
  IsValid (str v) = IsUtf8 v × (length v < 2 ^ 32) × All (λ b. b < 256) v
  IsValid (bytes v) = (length v < 2 ^ 32) × All (λ b. b < 256) v
  IsValid (uuid v) = (length v ≡ 16) × All (λ b. b < 256) v
  IsValid (date days) = (days < 2 ^ 32) × (date_in_range days ≡ true)
  IsValid (time secs nanos) = (secs < 2 ^ 32) × (nanos < 2 ^ 32) × (time_in_range secs nanos ≡ true)
  IsValid (datetime days secs nanos) =
      (days < 2 ^ 32)
      × (secs < 2 ^ 32)
      × (nanos < 2 ^ 32)
      × (date_in_range days ≡ true)
      × (time_in_range secs nanos ≡ true)
  IsValid (duration secs nanos) =
      (secs < 2 ^ 64) × (nanos < 2 ^ 32) × (duration_of secs nanos ≡ some (secs, nanos))
