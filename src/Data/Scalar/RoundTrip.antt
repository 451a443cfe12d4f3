-- ===== src/Data/Scalar/RoundTrip.antt =====
-- A scalar decodes to itself from its own encoding, whatever follows it.
use arbordb.Common.{
  ℕ, ◌+◌, ◌%◌, ◌^◌, ◌<◌, ◌≡◌, refl, sym, ap, subst, ◌∙◌, List, [], ◌∷◌, ◌++◌, append_assoc,
  append-nil, true, false, not, length, length-append, drop-append_length, ok, ◌==◌, arith,
}
use arbordb.Common.Be.{be, from_be, length-be, from_be-be}
use arbordb.Codec.Putters.{put_bytes}
use arbordb.Codec.Reader.{
  Reader, Decoder, pure, lift, ◌>>=◌, take, u8 as read_u8, u32 as read_u32, u64 as read_u64,
  array as read_array, bytes as read_bytes,
}
use arbordb.Codec.Reader.Reads.{
  Reads, Ahead, Reads-pure, Reads-bind, Reads-map, Reads-along, Reads-u8, Reads-u32, Reads-u64,
  Reads-bytes, Reads-take, Reads-array,
}
use arbordb.Data.Utf8.{is_utf8, from_utf8, from_utf8_lem}
use arbordb.Data.Scalar.{
  Chrono, Scalar, null, bool, i8, i16, i32, i64, i128, u8, u16, u32, u64, u128, f32, f64, str,
  bytes, uuid, date, time, datetime, duration, encode, decode, decode_body, decode_date,
  decode_time, IsValid,
}
use arbordb.Data.Scalar.Tag

-- What `Scalar::encode` writes.
abbrev pub encoded : Scalar → List ℕ
encoded s = encode s []

mod_small : (v : List ℕ) → length v < 2 ^ 32 → length v % 2 ^ 32 ≡ length v
mod_small v h = omega arith

put_bytes-append : (a b c : List ℕ) → put_bytes (a ++ b) c ≡ a ++ put_bytes b c
unfolding put_bytes
put_bytes-append a b c = simp append_assoc

-- `encode` appends.
pub encode-append : (s : Scalar) (buf : List ℕ) → encode s buf ≡ buf ++ encoded s
unfolding encode
encode-append (str v) buf = put_bytes-append buf (Tag.str ∷ []) v
encode-append (bytes v) buf = put_bytes-append buf (Tag.bytes ∷ []) v
encode-append null buf = refl
encode-append _ buf = simp append_assoc

Reads-run : (n v : ℕ) → Reads (take n) (be n v) (be n v)
Reads-run n v = subst (λ k. Reads (take k) (be n v) (be n v)) (length-be n v) (Reads-take (be n v))

Reads-uint :
    (n v : ℕ) (f : ℕ → Scalar)
    → v < 256 ^ n
    → Reads (read_array n >>= λ raw. pure (f (from_be raw))) (be n v) (f v)
unfolding read_array
Reads-uint n v f h =
    subst (λ k. Reads (take n >>= λ raw. pure (f (from_be raw))) (be n v) (f k)) (from_be-be n v h)
      (Reads-map n (λ raw. f (from_be raw)) (be n v) (length-be n v))

module _ (chrono : Chrono) where
  Reads-decode_time :
      (secs nanos : ℕ)
      → secs < 2 ^ 32
      → nanos < 2 ^ 32
      → chrono.time_in_range secs nanos ≡ true
      → Reads (decode_time chrono) (be 4 secs ++ be 4 nanos) (secs, nanos)
  unfolding decode_time
  Reads-decode_time secs nanos hs hn ok_time =
      Reads-bind read_u32 _ (be 4 secs) (be 4 nanos) secs (secs, nanos) (Reads-u32 secs hs)
        (Reads-along _ (secs, nanos) (append-nil (be 4 nanos))
          (Reads-bind read_u32 _ (be 4 nanos) [] nanos (secs, nanos) (Reads-u32 nanos hn)
            (rw ok_time (Reads-pure (secs, nanos)))))

  Reads-decode_date :
      (days : ℕ)
      → days < 2 ^ 32
      → chrono.date_in_range days ≡ true
      → Reads (decode_date chrono) (be 4 days) days
  unfolding decode_date read_array
  Reads-decode_date days hd ok_date = Reads-along _ days (append-nil (be 4 days)) (
      Reads-bind (take 4) _ (be 4 days) [] (be 4 days) days (Reads-run 4 days)
        (rw (from_be-be 4 days hd, ok_date) (Reads-pure days)))

  -- The decoder after its tag.
  Reads-tagged :
      (tag : ℕ) (body : List ℕ) (s : Scalar)
      → Reads (decode_body chrono tag) body s
      → Reads (decode chrono) (tag ∷ body) s
  unfolding decode
  Reads-tagged tag body s h =
      Reads-bind read_u8 (decode_body chrono) (tag ∷ []) body tag s (Reads-u8 tag) h

  Reads-then :
      {A : Type 0} (m : Decoder A) (f : A → Scalar) (bs : List ℕ) (a : A)
      → Reads m bs a
      → Reads (m >>= λ x. pure (f x)) bs (f a)
  Reads-then m f bs a h =
      Reads-along _ (f a) (append-nil bs) (Reads-bind m _ bs [] a (f a) h (Reads-pure (f a)))

  Reads-decode_body_text :
      (v : List ℕ)
      → is_utf8 v ≡ true
      → length v < 2 ^ 32
      → Reads
          (read_bytes >>= λ raw. lift (from_utf8 raw) >>= λ s. pure (str s))
          (be 4 (length v) ++ v)
          (str v)
  Reads-decode_body_text v u h = Reads-along _ (str v) (append-nil (be 4 (length v) ++ v)) (
      Reads-bind read_bytes _ (be 4 (length v) ++ v) [] v (str v) (Reads-bytes v h)
        (rw (from_utf8_lem v u) (Reads-pure (str v))))

  pub Reads-decode-encoded : (s : Scalar) → IsValid chrono s → Reads (decode chrono) (encoded s) s
  unfolding encode decode decode_body put_bytes
  Reads-decode-encoded null h = Reads-tagged Tag.null [] null (Reads-pure null)
  Reads-decode-encoded (bool true) h =
      Reads-tagged Tag.bool (1 ∷ []) (bool true)
        (Reads-then read_u8 (λ b. bool (not (b == 0))) (1 ∷ []) 1 (Reads-u8 1))
  Reads-decode-encoded (bool false) h =
      Reads-tagged Tag.bool (0 ∷ []) (bool false)
        (Reads-then read_u8 (λ b. bool (not (b == 0))) (0 ∷ []) 0 (Reads-u8 0))
  Reads-decode-encoded (i8 v) h = Reads-tagged Tag.i8 (be 1 v) (i8 v) (Reads-uint 1 v i8 h)
  Reads-decode-encoded (i16 v) h = Reads-tagged Tag.i16 (be 2 v) (i16 v) (Reads-uint 2 v i16 h)
  Reads-decode-encoded (i32 v) h = Reads-tagged Tag.i32 (be 4 v) (i32 v) (Reads-uint 4 v i32 h)
  Reads-decode-encoded (i64 v) h = Reads-tagged Tag.i64 (be 8 v) (i64 v) (Reads-uint 8 v i64 h)
  Reads-decode-encoded (i128 v) h =
      Reads-tagged Tag.i128 (be 16 v) (i128 v) (Reads-uint 16 v i128 h)
  Reads-decode-encoded (u8 v) h =
      Reads-tagged Tag.u8 (v ∷ []) (u8 v) (Reads-then read_u8 u8 (v ∷ []) v (Reads-u8 v))
  Reads-decode-encoded (u16 v) h = Reads-tagged Tag.u16 (be 2 v) (u16 v) (Reads-uint 2 v u16 h)
  Reads-decode-encoded (u32 v) h =
      Reads-tagged Tag.u32 (be 4 v) (u32 v) (Reads-then read_u32 u32 (be 4 v) v (Reads-u32 v h))
  Reads-decode-encoded (u64 v) h =
      Reads-tagged Tag.u64 (be 8 v) (u64 v) (Reads-then read_u64 u64 (be 8 v) v (Reads-u64 v h))
  Reads-decode-encoded (u128 v) h =
      Reads-tagged Tag.u128 (be 16 v) (u128 v) (Reads-uint 16 v u128 h)
  Reads-decode-encoded (f32 v) h = Reads-tagged Tag.f32 (be 4 v) (f32 v) (Reads-uint 4 v f32 h)
  Reads-decode-encoded (f64 v) h = Reads-tagged Tag.f64 (be 8 v) (f64 v) (Reads-uint 8 v f64 h)
  Reads-decode-encoded (str v) h =
      Reads-tagged Tag.str _ (str v) (rw (mod_small v h.1) (Reads-decode_body_text v h.0 h.1))
  Reads-decode-encoded (bytes v) h = Reads-tagged Tag.bytes _ (bytes v) (
      rw (mod_small v h.0)
        (Reads-then read_bytes bytes (be 4 (length v) ++ v) v (Reads-bytes v h.0)))
  Reads-decode-encoded (uuid v) h = Reads-tagged Tag.uuid v (uuid v) (
      Reads-then (read_array 16) uuid v v
        (subst (λ n. Reads (read_array n) v v) h.0 (Reads-array v)))
  Reads-decode-encoded (date days) h =
      Reads-tagged Tag.date (be 4 days) (date days)
        (Reads-then (decode_date chrono) date (be 4 days) days (Reads-decode_date days h.0 h.1))
  Reads-decode-encoded (time secs nanos) h =
      Reads-tagged Tag.time (be 4 secs ++ be 4 nanos) (time secs nanos) (
        Reads-then (decode_time chrono) (λ t. time t.0 t.1) (be 4 secs ++ be 4 nanos) (secs, nanos)
          (Reads-decode_time secs nanos h.0 h.1 h.2))
  Reads-decode-encoded (datetime days secs nanos) h =
      Reads-tagged Tag.datetime ((be 4 days ++ be 4 secs) ++ be 4 nanos) (datetime days secs nanos)
        (Reads-along _ (datetime days secs nanos)
          (sym (append_assoc (be 4 days) (be 4 secs) (be 4 nanos)))
          (Reads-bind (decode_date chrono) _ (be 4 days) (be 4 secs ++ be 4 nanos) days
            (datetime days secs nanos) (Reads-decode_date days h.0 h.3)
            (Reads-then (decode_time chrono) (λ t. datetime days t.0 t.1) (be 4 secs ++ be 4 nanos)
              (secs, nanos) (Reads-decode_time secs nanos h.1 h.2 h.4))))
  Reads-decode-encoded (duration secs nanos) h =
      Reads-tagged Tag.duration (be 8 secs ++ be 4 nanos) (duration secs nanos) (
        Reads-bind (read_array 8) _ (be 8 secs) (be 4 nanos) (be 8 secs) (duration secs nanos)
          (unfold read_array in Reads-run 8 secs)
          (Reads-along _ (duration secs nanos) (append-nil (be 4 nanos)) (
            Reads-bind (read_array 4) _ (be 4 nanos) [] (be 4 nanos) (duration secs nanos)
              (unfold read_array in Reads-run 4 nanos)
              (rw (from_be-be 8 secs h.0, from_be-be 4 nanos h.1, h.2)
                (Reads-pure (duration secs nanos))))))

-- A reader that stands at the encoding of a valid scalar decodes that scalar, whatever bytes
-- follow, and stands right behind the encoding afterwards.
pub decode_scalar-encode :
    (chrono : Chrono) (s : Scalar) (before after : List ℕ)
    → IsValid chrono s
    → length (encode s before ++ after) < 2 ^ 64
    → decode chrono (record { buf = encode s before ++ after; pos = length before })
      ≡ ok (s, record { buf = encode s before ++ after; pos = length (encode s before) })
decode_scalar-encode chrono s before after valid small =
    (Reads-decode-encoded chrono s valid).at here after ahead
    ∙ ap (λ (n : ℕ). ok (s, record { buf = encode s before ++ after; pos = n })) ends
  where
    here : Reader
    here = record { buf = encode s before ++ after; pos = length before }

    same : encode s before ++ after ≡ before ++ (encoded s ++ after)
    same = rw (encode-append s before) (append_assoc before (encoded s) after)

    ends : length before + length (encoded s) ≡ length (encode s before)
    ends = rw (encode-append s before) (omega (arith, length-append before (encoded s)))

    ahead : Ahead here (encoded s ++ after)
    ahead = record {
      rest_eq = rw same (drop-append_length before (encoded s ++ after));
      length_eq = rw same (omega (arith, length-append before (encoded s ++ after)));
      small = small;
    }
