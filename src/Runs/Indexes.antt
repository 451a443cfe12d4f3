-- ===== src/Runs/Indexes.antt =====
-- The encoding of column values, and a prefix scan.
use arbordb.Common.{◌≡◌, refl, List, [], ◌∷◌, ◌++◌, some, true, false, ◌&&◌, compare, arith}
use arbordb.Common.Be.{be}
use arbordb.Common.Lex.{lex, verdict, then_cmp, starts_with, is_eq}
use arbordb.Data.Scalar.{Scalar}
use arbordb.Index.Definitions.{Direction, IndexDef, encode_columns}
use arbordb.Index.Ordered.{encode_scalar}
use arbordb.Index.Ordered.Spec.{compare_scalar}
use arbordb.Index.Ordered.Order.{directed, verdict-encode_scalar}
use arbordb.Index.Columns.{compare_tuples, lex-encode_columns, matches}
use arbordb.Index.Key.{entry_key, id_prefix}
use arbordb.Index.Scan.{Item, scan_prefix}
use arbordb.Index.Scan.Prefix.{
  AscendsFrom, collect, matching, scan_prefix-matching, starts_with-entry_key,
}
use arbordb.Runs.Samples.{any_chrono, sample_path, zeros}

verdict-encode_scalar_example :
    verdict (encode_scalar [] (Scalar.i8 255) true) (encode_scalar [] (Scalar.i8 1) true)
    ≡ some (directed true (compare_scalar (Scalar.i8 255) (Scalar.i8 1)))
verdict-encode_scalar_example =
    verdict-encode_scalar any_chrono (Scalar.i8 255) (Scalar.i8 1) true (omega arith) (omega arith)

-- Two columns, the second descending.
abbrev sample_def : IndexDef
sample_def = record {
  name = 0x69 ∷ [];
  pattern = 0x2f ∷ [];
  columns =
      record { path = sample_path; direction = Direction.asc }
      ∷ record { path = sample_path; direction = Direction.desc }
      ∷ [];
  unique = false;
}

abbrev tuple_a : List Scalar
tuple_a = Scalar.u8 3 ∷ Scalar.null ∷ []

abbrev tuple_b : List Scalar
tuple_b = Scalar.u8 3 ∷ Scalar.bool true ∷ []

lex-encode_columns_example :
    lex (encode_columns sample_def tuple_a ++ []) (encode_columns sample_def tuple_b ++ [])
    ≡ then_cmp (compare_tuples sample_def.columns tuple_a tuple_b) (lex [] [])
lex-encode_columns_example =
    lex-encode_columns any_chrono sample_def tuple_a tuple_b [] [] refl refl (omega arith, (tt, tt))
      (omega arith, (tt, tt))

starts_with-entry_key_example :
    starts_with
      (entry_key 4 (encode_columns sample_def tuple_a) (some 77))
      (id_prefix 4 ++ encode_columns sample_def (Scalar.u8 3 ∷ []))
    ≡ (is_eq (compare 4 4) && matches (Scalar.u8 3 ∷ []) tuple_a)
starts_with-entry_key_example =
    starts_with-entry_key any_chrono sample_def 4 4 (Scalar.u8 3 ∷ []) tuple_a (some 77)
      (omega arith) (omega arith) (omega arith) refl (omega arith, tt) (omega arith, (tt, tt))

-- Three entries of an index, the last of another prefix.
abbrev sample_items : List Item
sample_items =
    (0 ∷ 0 ∷ 0 ∷ 4 ∷ 9 ∷ zeros 16, [])
    ∷ (0 ∷ 0 ∷ 0 ∷ 4 ∷ 9 ∷ 0 ∷ zeros 16, [])
    ∷ (0 ∷ 0 ∷ 0 ∷ 5 ∷ zeros 16, [])
    ∷ []

sample_items-ascends : AscendsFrom (id_prefix 4 ++ 9 ∷ []) sample_items
unfolding id_prefix be lex
sample_items-ascends = ((λ e. cc), ((λ e. cc), ((λ e. cc), tt)))

scan_prefix-matching_example :
    scan_prefix (λ lower. sample_items) 4 (9 ∷ []) false
    ≡ collect false (matching (id_prefix 4 ++ 9 ∷ []) sample_items)
scan_prefix-matching_example =
    scan_prefix-matching (λ lower. sample_items) 4 (9 ∷ []) false sample_items-ascends
