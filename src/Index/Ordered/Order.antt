-- ===== src/Index/Ordered/Order.antt =====
-- The bytes of an index column compare as its scalars do, and settle the comparison by themselves.
use arbordb.Common.{
  ℕ, ◌*◌, ◌^◌, ◌<◌, ◌≡◌, refl, sym, ap, ap₂, ◌∙◌, List, [], ◌∷◌, ◌++◌, append_assoc, some, compare,
  Ordering, Bool, true, false, All, All-append, take-append_length, drop-append_length, arith,
}
use arbordb.Common.Be.{be, verdict-be, be-IsByte}
use arbordb.Common.Lex.{
  verdict, verdict-append, verdict-complement, then_cmp, reverse_cmp, and_then, complement,
}
use arbordb.Common.Int.{ℤ, pos, negsuc, pos_part, neg_part, compare_ℤ, to_signed, of_signed}
use arbordb.Data.Scalar.{Chrono, IsValid}
use arbordb.Data.Scalar.{
  Scalar, null, bool, i8, i16, i32, i64, i128, u8, u16, u32, u64, u128, f32, f64, str, bytes, uuid,
  date, time, datetime, duration, byte_of_bool,
}
use arbordb.Data.Scalar.Tag
use arbordb.Index.Ordered.{
  push_signed, signed, unsigned, float32, float64, ordered_bytes, total_nanos, encode_ascending,
  encode_scalar,
}
use arbordb.Index.Ordered.Numbers.{
  push_signed-append, push_signed-IsByte, verdict-signed, verdict-float32, verdict-float64,
}
use arbordb.Index.Ordered.Text.{
  ordered_bytes-append, ordered_bytes-IsByte, verdict-ordered_bytes, verdict-same_length,
}
use arbordb.Index.Ordered.Spec.{tag_of, compare_same, compare_scalar}

nanos_pattern : ℕ → ℕ → ℕ
nanos_pattern secs nanos = of_signed (2 ^ 127) (total_nanos secs nanos)

-- What stands behind the tag.
body : Scalar → List ℕ
unfolding nanos_pattern
body null = []
body (bool v) = byte_of_bool v ∷ []
body (i8 v) = push_signed [] (be 1 v)
body (i16 v) = push_signed [] (be 2 v)
body (i32 v) = push_signed [] (be 4 v)
body (i64 v) = push_signed [] (be 8 v)
body (i128 v) = push_signed [] (be 16 v)
body (u8 v) = v ∷ []
body (u16 v) = be 2 v
body (u32 v) = be 4 v
body (u64 v) = be 8 v
body (u128 v) = be 16 v
body (f32 v) = be 4 (float32 v)
body (f64 v) = be 8 (float64 v)
body (str v) = ordered_bytes [] v
body (bytes v) = ordered_bytes [] v
body (uuid v) = v
body (date days) = push_signed [] (be 4 days)
body (time secs nanos) = be 4 secs ++ be 4 nanos
body (datetime days secs nanos) = push_signed [] (be 4 days) ++ (be 4 secs ++ be 4 nanos)
body (duration secs nanos) = push_signed [] (be 16 (nanos_pattern secs nanos))

signed_lem : (out bs : List ℕ) (tag : ℕ) → signed out tag bs ≡ out ++ (tag ∷ push_signed [] bs)
unfolding signed
signed_lem out bs tag = push_signed-append (out ++ tag ∷ []) bs ∙ append_assoc out (tag ∷ []) _

unsigned_lem : (out bs : List ℕ) (tag : ℕ) → unsigned out tag bs ≡ out ++ (tag ∷ bs)
unfolding unsigned
unsigned_lem out bs tag = append_assoc out (tag ∷ []) bs

text_lem :
    (out bs : List ℕ) (tag : ℕ)
    → ordered_bytes (out ++ tag ∷ []) bs ≡ out ++ (tag ∷ ordered_bytes [] bs)
text_lem out bs tag = ordered_bytes-append (out ++ tag ∷ []) bs ∙ append_assoc out (tag ∷ []) _

datetime_lem :
    (out p q r : List ℕ) (tag : ℕ)
    → (push_signed (out ++ tag ∷ []) p ++ q) ++ r ≡ out ++ (tag ∷ (push_signed [] p ++ (q ++ r)))
datetime_lem out p q r tag = rw (push_signed-append (out ++ tag ∷ []) p) (simp append_assoc)

encode_ascending_lem :
    (s : Scalar) (out : List ℕ) → encode_ascending out s ≡ out ++ (tag_of s ∷ body s)
unfolding encode_ascending tag_of body
encode_ascending_lem (i8 v) out = signed_lem out (be 1 v) Tag.i8
encode_ascending_lem (i16 v) out = signed_lem out (be 2 v) Tag.i16
encode_ascending_lem (i32 v) out = signed_lem out (be 4 v) Tag.i32
encode_ascending_lem (i64 v) out = signed_lem out (be 8 v) Tag.i64
encode_ascending_lem (i128 v) out = signed_lem out (be 16 v) Tag.i128
encode_ascending_lem (u8 v) out = append_assoc out (Tag.u8 ∷ []) _
encode_ascending_lem (u16 v) out = unsigned_lem out (be 2 v) Tag.u16
encode_ascending_lem (u32 v) out = unsigned_lem out (be 4 v) Tag.u32
encode_ascending_lem (u64 v) out = unsigned_lem out (be 8 v) Tag.u64
encode_ascending_lem (u128 v) out = unsigned_lem out (be 16 v) Tag.u128
encode_ascending_lem (f32 v) out = unsigned_lem out (be 4 (float32 v)) Tag.f32
encode_ascending_lem (f64 v) out = unsigned_lem out (be 8 (float64 v)) Tag.f64
encode_ascending_lem (str v) out = text_lem out v Tag.str
encode_ascending_lem (bytes v) out = text_lem out v Tag.bytes
encode_ascending_lem (date days) out = signed_lem out (be 4 days) Tag.date
encode_ascending_lem (datetime days secs nanos) out =
    datetime_lem out (be 4 days) (be 4 secs) (be 4 nanos) Tag.datetime
encode_ascending_lem (duration secs nanos) out =
    signed_lem out (be 16 (nanos_pattern secs nanos)) Tag.duration
encode_ascending_lem null out = refl
encode_ascending_lem _ out = simp append_assoc

to_signed-of_signed :
    (half : ℕ) (z : ℤ)
    → pos_part z < half
    → neg_part z < half
    → to_signed half (of_signed half z) ≡ z
to_signed-of_signed half (pos n) h k = ground arith
to_signed-of_signed half (negsuc n) h k = ground arith

of_signed-lt : (half : ℕ) (z : ℤ) → pos_part z < half → 0 < half → of_signed half z < 2 * half
of_signed-lt half (pos n) h k = omega arith
of_signed-lt half (negsuc n) h k = omega arith

total_nanos_small :
    (secs nanos : ℕ)
    → secs < 2 ^ 64
    → nanos < 2 ^ 32
    → (pos_part (total_nanos secs nanos) < 2 ^ 127) × (neg_part (total_nanos secs nanos) < 2 ^ 127)
total_nanos_small secs nanos h k = ground arith

nanos_pattern-lt :
    (secs nanos : ℕ) → secs < 2 ^ 64 → nanos < 2 ^ 32 → nanos_pattern secs nanos < 2 ^ 128
unfolding nanos_pattern
nanos_pattern-lt secs nanos h k =
    of_signed-lt (2 ^ 127) (total_nanos secs nanos) (total_nanos_small secs nanos h k).0
      (omega arith)

verdict-duration :
    (s n s' n' : ℕ)
    → s < 2 ^ 64
    → n < 2 ^ 32
    → s' < 2 ^ 64
    → n' < 2 ^ 32
    → verdict
        (push_signed [] (be 16 (nanos_pattern s n)))
        (push_signed [] (be 16 (nanos_pattern s' n')))
      ≡ some (compare_ℤ (total_nanos s n) (total_nanos s' n'))
verdict-duration s n s' n' hs hn hs' hn' =
    verdict-signed 15 (nanos_pattern s n) (nanos_pattern s' n') (nanos_pattern-lt s n hs hn)
      (nanos_pattern-lt s' n' hs' hn')
    ∙ ap some (ap₂ compare_ℤ (exact s n hs hn) (exact s' n' hs' hn'))
  where
    exact :
        (s n : ℕ)
        → s < 2 ^ 64
        → n < 2 ^ 32
        → to_signed (2 ^ 127) (nanos_pattern s n) ≡ total_nanos s n
    exact s n hs hn =
        let (p, q) = total_nanos_small s n hs hn in
        unfold nanos_pattern in to_signed-of_signed (2 ^ 127) (total_nanos s n) p q

verdict-two :
    (p q p' q' : List ℕ) (o u : Ordering)
    → verdict p p' ≡ some o
    → verdict q q' ≡ some u
    → verdict (p ++ q) (p' ++ q') ≡ some (then_cmp o u)
verdict-two p q p' q' o u h k = verdict-append p p' q q' o h ∙ rw k (settle o u)
  where
    settle : (o u : Ordering) → and_then o (some u) ≡ some (then_cmp o u)
    settle o u = ground arith

verdict-time :
    (s n s' n' : ℕ)
    → s < 2 ^ 32
    → n < 2 ^ 32
    → s' < 2 ^ 32
    → n' < 2 ^ 32
    → verdict (be 4 s ++ be 4 n) (be 4 s' ++ be 4 n')
      ≡ some (then_cmp (compare s s') (compare n n'))
verdict-time s n s' n' hs hn hs' hn' =
    verdict-two (be 4 s) (be 4 n) (be 4 s') (be 4 n') _ _ (verdict-be 4 s s' hs hs')
      (verdict-be 4 n n' hn hn')

module _ (chrono : Chrono) where
  verdict-body :
      (a b : Scalar)
      → IsValid chrono a
      → IsValid chrono b
      → tag_of a ≡ tag_of b
      → verdict (body a) (body b) ≡ some (compare_same a b)
  unfolding tag_of body compare_same
  verdict-body null null h k e = unfold verdict in refl
  verdict-body (bool a) (bool b) h k e = unfold verdict in ground arith
  verdict-body (i8 a) (i8 b) h k e = verdict-signed 0 a b h k
  verdict-body (i16 a) (i16 b) h k e = verdict-signed 1 a b h k
  verdict-body (i32 a) (i32 b) h k e = verdict-signed 3 a b h k
  verdict-body (i64 a) (i64 b) h k e = verdict-signed 7 a b h k
  verdict-body (i128 a) (i128 b) h k e = verdict-signed 15 a b h k
  verdict-body (u8 a) (u8 b) h k e = unfold verdict in ground arith
  verdict-body (u16 a) (u16 b) h k e = verdict-be 2 a b h k
  verdict-body (u32 a) (u32 b) h k e = verdict-be 4 a b h k
  verdict-body (u64 a) (u64 b) h k e = verdict-be 8 a b h k
  verdict-body (u128 a) (u128 b) h k e = verdict-be 16 a b h k
  verdict-body (f32 a) (f32 b) h k e = verdict-float32 a b h k
  verdict-body (f64 a) (f64 b) h k e = verdict-float64 a b h k
  verdict-body (str a) (str b) h k e = verdict-ordered_bytes a b
  verdict-body (bytes a) (bytes b) h k e = verdict-ordered_bytes a b
  verdict-body (uuid a) (uuid b) h k e = verdict-same_length a b (h.0 ∙ sym k.0)
  verdict-body (date a) (date b) h k e = verdict-signed 3 a b h.0 k.0
  verdict-body (time s n) (time s' n') h k e = verdict-time s n s' n' h.0 h.1 k.0 k.1
  verdict-body (datetime d s n) (datetime d' s' n') h k e =
      verdict-two (push_signed [] (be 4 d)) (be 4 s ++ be 4 n) (push_signed [] (be 4 d'))
        (be 4 s' ++ be 4 n') _ _ (verdict-signed 3 d d' h.0 k.0)
        (verdict-time s n s' n' h.1 h.2 k.1 k.2)
  verdict-body (duration s n) (duration s' n') h k e = verdict-duration s n s' n' h.0 h.1 k.0 k.1
  verdict-body _ _ h k e = absurd (omega arith)

  verdict-ascending :
      (a b : Scalar)
      → IsValid chrono a
      → IsValid chrono b
      → verdict (tag_of a ∷ body a) (tag_of b ∷ body b) ≡ some (compare_scalar a b)
  unfolding verdict compare_scalar
  verdict-ascending a b h k = ground (arith, verdict-body a b h k)

  body-IsByte : (s : Scalar) → IsValid chrono s → All (λ b. b < 256) (body s)
  unfolding body
  body-IsByte null h = tt
  body-IsByte (bool true) h = omega arith
  body-IsByte (bool false) h = omega arith
  body-IsByte (i8 v) h = push_signed-IsByte 0 v h
  body-IsByte (i16 v) h = push_signed-IsByte 1 v h
  body-IsByte (i32 v) h = push_signed-IsByte 3 v h
  body-IsByte (i64 v) h = push_signed-IsByte 7 v h
  body-IsByte (i128 v) h = push_signed-IsByte 15 v h
  body-IsByte (u8 v) h = omega arith
  body-IsByte (u16 v) h = be-IsByte 2 v
  body-IsByte (u32 v) h = be-IsByte 4 v
  body-IsByte (u64 v) h = be-IsByte 8 v
  body-IsByte (u128 v) h = be-IsByte 16 v
  body-IsByte (f32 v) h = be-IsByte 4 (float32 v)
  body-IsByte (f64 v) h = be-IsByte 8 (float64 v)
  body-IsByte (str v) h = ordered_bytes-IsByte v h.2
  body-IsByte (bytes v) h = ordered_bytes-IsByte v h.1
  body-IsByte (uuid v) h = h.1
  body-IsByte (date days) h = push_signed-IsByte 3 days h.0
  body-IsByte (time s n) h = All-append _ (be 4 s) (be 4 n) (be-IsByte 4 s) (be-IsByte 4 n)
  body-IsByte (datetime d s n) h =
      All-append _ (push_signed [] (be 4 d)) _ (push_signed-IsByte 3 d h.0)
        (All-append _ (be 4 s) (be 4 n) (be-IsByte 4 s) (be-IsByte 4 n))
  body-IsByte (duration s n) h =
      push_signed-IsByte 15 (nanos_pattern s n) (nanos_pattern-lt s n h.0 h.1)

  tag_of-lt : (s : Scalar) → tag_of s < 256
  unfolding tag_of
  tag_of-lt null = omega arith
  tag_of-lt _ = omega arith

-- The order of a column in its direction.
abbrev pub directed : Bool → Ordering → Ordering
directed false o = o
directed true o = reverse_cmp o

column : Scalar → Bool → List ℕ
column s false = tag_of s ∷ body s
column s true = complement (tag_of s ∷ body s)

encode_scalar_lem :
    (out : List ℕ) (s : Scalar) (d : Bool) → encode_scalar out s d ≡ out ++ column s d
unfolding encode_scalar column
encode_scalar_lem out s false = encode_ascending_lem s out
encode_scalar_lem out s true =
    rw (encode_ascending_lem s out, take-append_length, drop-append_length)

verdict-column :
    (chrono : Chrono) (a b : Scalar) (d : Bool)
    → IsValid chrono a
    → IsValid chrono b
    → verdict (column a d) (column b d) ≡ some (directed d (compare_scalar a b))
unfolding column
verdict-column chrono a b false h k = verdict-ascending chrono a b h k
verdict-column chrono a b true h k =
    verdict-complement (tag_of a ∷ body a) (tag_of b ∷ body b) (compare_scalar a b)
      (tag_of-lt chrono a, body-IsByte chrono a h) (tag_of-lt chrono b, body-IsByte chrono b k)
      (verdict-ascending chrono a b h k)

pub encode_scalar-append :
    (out : List ℕ) (s : Scalar) (d : Bool) → encode_scalar out s d ≡ out ++ encode_scalar [] s d
encode_scalar-append out s d =
    encode_scalar_lem out s d ∙ ap (λ t. out ++ t) (sym (encode_scalar_lem [] s d))

-- The encodings of two valid scalars in a column settle their order by themselves, so neither is a
-- prefix of the other: the order of the values, reversed in a descending column.
pub verdict-encode_scalar :
    (chrono : Chrono) (a b : Scalar) (d : Bool)
    → IsValid chrono a
    → IsValid chrono b
    → verdict (encode_scalar [] a d) (encode_scalar [] b d) ≡ some (directed d (compare_scalar a b))
verdict-encode_scalar chrono a b d h k =
    rw (encode_scalar_lem [] a d, encode_scalar_lem [] b d) (verdict-column chrono a b d h k)
