-- ===== src/Index/Columns.antt =====
-- Tuples of column values: the order of their encodings, and which encodings start with the
-- encoding of a prefix.
use arbordb.Common.{
  ℕ, ◌≤◌, ◌≡◌, refl, sym, ap, ap₂, ◌∙◌, List, [], ◌∷◌, ◌++◌, append_assoc, append-nil, Bool, true,
  false, Ordering, length, All, arith, ◌&&◌,
}
use arbordb.Common.Lex.{
  lex, lex-append, then_cmp, starts_with, starts_with-append, starts_with-nil, is_eq,
}
use arbordb.Data.Scalar.{Chrono, Scalar, IsValid}
use arbordb.Index.Ordered.{encode_scalar}
use arbordb.Index.Ordered.Order.{directed, encode_scalar-append, verdict-encode_scalar}
use arbordb.Index.Ordered.Spec.{compare_scalar}
use arbordb.Index.Definitions.{IndexColumn, IndexDef, is_desc, encode_zipped, encode_columns}

-- The columns one after the other.
tuple : List Scalar → List IndexColumn → List ℕ
tuple [] columns = []
tuple (v ∷ values) [] = []
tuple (v ∷ values) (c ∷ columns) = encode_scalar [] v (is_desc c.direction) ++ tuple values columns

encode_zipped_lem :
    (cols : List ℕ) (values : List Scalar) (columns : List IndexColumn)
    → encode_zipped cols values columns ≡ cols ++ tuple values columns
unfolding encode_zipped tuple
encode_zipped_lem cols [] columns = sym (append-nil cols)
encode_zipped_lem cols (v ∷ values) [] = sym (append-nil cols)
encode_zipped_lem cols (v ∷ values) (c ∷ columns) =
    encode_zipped_lem (encode_scalar cols v (is_desc c.direction)) values columns
    ∙ ap (λ t. t ++ tuple values columns) (encode_scalar-append cols v (is_desc c.direction))
    ∙ append_assoc cols _ _

-- The order of two tuples: the first column that differs decides, in its direction.
unfoldable pub compare_tuples : List IndexColumn → List Scalar → List Scalar → Ordering
compare_tuples (c ∷ columns) (a ∷ us) (b ∷ vs) =
    then_cmp (directed (is_desc c.direction) (compare_scalar a b)) (compare_tuples columns us vs)
compare_tuples _ _ _ = Ordering.eq

then_cmp_assoc : (o p q : Ordering) → then_cmp o (then_cmp p q) ≡ then_cmp (then_cmp o p) q
then_cmp_assoc o p q = ground arith

module _ (chrono : Chrono) where
  lex-tuple :
      (columns : List IndexColumn) (us vs : List Scalar) (p q : List ℕ)
      → length us ≡ length columns
      → length vs ≡ length columns
      → All (IsValid chrono) us
      → All (IsValid chrono) vs
      → lex (tuple us columns ++ p) (tuple vs columns ++ q)
        ≡ then_cmp (compare_tuples columns us vs) (lex p q)
  unfolding tuple compare_tuples
  lex-tuple [] [] [] p q la lb valid_us valid_vs = refl
  lex-tuple [] (a ∷ us) vs p q la lb valid_us valid_vs = absurd (omega arith)
  lex-tuple [] [] (b ∷ vs) p q la lb valid_us valid_vs = absurd (omega arith)
  lex-tuple (c ∷ columns) [] vs p q la lb valid_us valid_vs = absurd (omega arith)
  lex-tuple (c ∷ columns) (a ∷ us) [] p q la lb valid_us valid_vs = absurd (omega arith)
  lex-tuple (c ∷ columns) (a ∷ us) (b ∷ vs) p q la lb valid_us valid_vs =
      let d = is_desc c.direction in
      rw (append_assoc (encode_scalar [] a d), append_assoc (encode_scalar [] b d))
        (lex-append (encode_scalar [] a d) (encode_scalar [] b d) _ _ _
            (verdict-encode_scalar chrono a b d valid_us.0 valid_vs.0)
          ∙ ap (then_cmp (directed d (compare_scalar a b)))
              (lex-tuple columns us vs p q (omega arith) (omega arith) valid_us.1 valid_vs.1)
          ∙ then_cmp_assoc (directed d (compare_scalar a b)) (compare_tuples columns us vs)
              (lex p q))

-- Two full tuples of valid values, encoded and followed by any bytes, compare as the tuples do under
-- the directions of the columns, and where the tuples are equal as what follows.
pub lex-encode_columns :
    (chrono : Chrono) (def : IndexDef) (us vs : List Scalar) (p q : List ℕ)
    → length us ≡ length def.columns
    → length vs ≡ length def.columns
    → All (IsValid chrono) us
    → All (IsValid chrono) vs
    → lex (encode_columns def us ++ p) (encode_columns def vs ++ q)
      ≡ then_cmp (compare_tuples def.columns us vs) (lex p q)
unfolding encode_columns
lex-encode_columns chrono def us vs p q la lb valid_us valid_vs =
    rw (encode_zipped_lem [] us def.columns, encode_zipped_lem [] vs def.columns)
      (lex-tuple chrono def.columns us vs p q la lb valid_us valid_vs)

-- Whether the leading values of a tuple equal those of a prefix.
unfoldable pub matches : List Scalar → List Scalar → Bool
matches [] vs = true
matches (u ∷ us) [] = false
matches (u ∷ us) (v ∷ vs) = is_eq (compare_scalar v u) && matches us vs

is_eq-directed : (d : Bool) (o : Ordering) → is_eq (directed d o) ≡ is_eq o
is_eq-directed d o = ground arith

module _ (chrono : Chrono) where
  starts_with-tuple :
      (columns : List IndexColumn) (us vs : List Scalar) (p : List ℕ)
      → length us ≤ length columns
      → length vs ≡ length columns
      → All (IsValid chrono) us
      → All (IsValid chrono) vs
      → starts_with (tuple vs columns ++ p) (tuple us columns) ≡ matches us vs
  unfolding tuple matches
  starts_with-tuple columns [] vs p lu lv valid_us valid_vs = starts_with-nil _
  starts_with-tuple [] (u ∷ us) vs p lu lv valid_us valid_vs = absurd (omega arith)
  starts_with-tuple (c ∷ columns) (u ∷ us) [] p lu lv valid_us valid_vs = absurd (omega arith)
  starts_with-tuple (c ∷ columns) (u ∷ us) (v ∷ vs) p lu lv valid_us valid_vs =
      let d = is_desc c.direction in
      rw (append_assoc (encode_scalar [] v d)) (
        starts_with-append (encode_scalar [] v d) (encode_scalar [] u d) _ _ _
          (verdict-encode_scalar chrono v u d valid_vs.0 valid_us.0)
        ∙ ap₂ ◌&&◌ (is_eq-directed d (compare_scalar v u))
            (starts_with-tuple columns us vs p (omega arith) (omega arith) valid_us.1 valid_vs.1))

pub starts_with-encode_columns :
    (chrono : Chrono) (def : IndexDef) (us vs : List Scalar) (p : List ℕ)
    → length us ≤ length def.columns
    → length vs ≡ length def.columns
    → All (IsValid chrono) us
    → All (IsValid chrono) vs
    → starts_with (encode_columns def vs ++ p) (encode_columns def us) ≡ matches us vs
unfolding encode_columns
starts_with-encode_columns chrono def us vs p lu lv valid_us valid_vs =
    rw (encode_zipped_lem [] us def.columns, encode_zipped_lem [] vs def.columns)
      (starts_with-tuple chrono def.columns us vs p lu lv valid_us valid_vs)
