-- ===== src/Runs/Blobs.antt =====
-- The blobs of a value, a scalar and a directory.
use arbordb.Common.{
  List, err, out_of_fuel, ℕ, ◌^◌, ◌<◌, ◌≡◌, refl, [], ◌∷◌, ◌++◌, some, length, ok, arith,
}
use arbordb.Codec.Archived.Node.{
  node_at, kind, list_kind, to_value, ArchivedValue, open_blob, root, decode, navigate, span_at,
}
use arbordb.Codec.Archived.Node
use arbordb.Codec.Archived.Cycle.{to_value-cycle}
use arbordb.Codec.Archived.Write.{encode}
use arbordb.Codec.Archived.RoundTrip.{decode-encode, navigate-encode, span_at-encode, Reaches}
use arbordb.Codec.Read.{slice, read_u8, read_u32}
use arbordb.Codec.Putters.{put_bytes, put_u32}
use arbordb.Common.Be.{be, from_be}
use arbordb.Common.Lex.{lex}
use arbordb.Key.{into_bytes}
use arbordb.Codec.Dir
use arbordb.Codec.Dir.{ArchivedDir, Children, encode_dir, entries, len}
use arbordb.Codec.Dir.Names
use arbordb.Codec.Dir.Names.{find}
use arbordb.Codec.Dir.RoundTrip.{get-encode_dir, entries-encode_dir}
use arbordb.Data.Utf8.{is_utf8}
use arbordb.Data.Scalar
use arbordb.Data.Scalar.RoundTrip.{decode_scalar-encode}
use arbordb.Value.Tree.{leaf, IsValid, lookup}
use arbordb.Value.Access.{subtree}
use arbordb.Runs.Samples.{any_chrono, sample_leaf, sample_value, sample_path}

sample_scalar-IsValid : Scalar.IsValid any_chrono sample_leaf
unfolding is_utf8
sample_scalar-IsValid = (refl, omega arith, (omega arith, (omega arith, (omega arith, tt))))

pub sample_value-IsValid : IsValid any_chrono sample_value
unfolding is_utf8 lex
sample_value-IsValid = (refl, omega arith, refl, (refl, (tt, (sample_scalar-IsValid, tt)), tt, tt))

sample_value-small : length (encode sample_value) < 2 ^ 32
unfolding encode Scalar.encode put_bytes be
sample_value-small = omega arith

decode-encode_example : decode any_chrono (encode sample_value) ≡ ok sample_value
decode-encode_example =
    decode-encode any_chrono sample_value sample_value-IsValid sample_value-small

navigate-encode_example :
    (view : ArchivedValue) × (open_blob (encode sample_value) ≡ ok view)
    × Reaches any_chrono (subtree sample_value sample_path) (navigate (root view) sample_path)
navigate-encode_example =
    navigate-encode any_chrono sample_value sample_path sample_value-IsValid sample_value-small

sample_path-leaf : subtree sample_value sample_path ≡ some (leaf sample_leaf)
unfolding subtree lookup lex
sample_path-leaf = refl

span_at-encode_example :
    (view : ArchivedValue) × (start : ℕ) × (len : ℕ) × (open_blob (encode sample_value) ≡ ok view)
    × (span_at any_chrono view sample_path ≡ ok (some (start, len)))
    × (slice (encode sample_value) start len ≡ ok (Scalar.encode sample_leaf []))
span_at-encode_example =
    span_at-encode any_chrono sample_value sample_path sample_leaf sample_value-IsValid
      sample_value-small sample_path-leaf

sample_scalar-small : length (Scalar.encode sample_leaf (9 ∷ []) ++ 5 ∷ []) < 2 ^ 64
unfolding Scalar.encode put_bytes be
sample_scalar-small = omega arith

decode_scalar-encode_example :
    Scalar.decode any_chrono
      (record { buf = Scalar.encode sample_leaf (9 ∷ []) ++ 5 ∷ []; pos = 1 })
    ≡ ok (
      sample_leaf,
      record {
        buf = Scalar.encode sample_leaf (9 ∷ []) ++ 5 ∷ [];
        pos = length (Scalar.encode sample_leaf (9 ∷ []));
      },
    )
decode_scalar-encode_example =
    decode_scalar-encode any_chrono sample_leaf (9 ∷ []) (5 ∷ []) sample_scalar-IsValid
      sample_scalar-small

-- { "a": 3, "b": 5 }
abbrev sample_children : Children
sample_children = (0x61 ∷ [], 3) ∷ (0x62 ∷ [], 5) ∷ []

sample_children-IsValid : Names.IsValid sample_children
unfolding is_utf8 lex
sample_children-IsValid = (refl, omega arith, refl, (refl, omega arith, tt, tt))

sample_children-small : length (encode_dir sample_children) < 2 ^ 32
unfolding encode_dir put_u32 into_bytes be
sample_children-small = omega arith

get-encode_dir_example :
    (dir : ArchivedDir) × (Dir.new (encode_dir sample_children) ≡ ok dir)
    × (Dir.get dir (0x62 ∷ []) ≡ ok (find (0x62 ∷ []) sample_children))
get-encode_dir_example =
    get-encode_dir sample_children (0x62 ∷ []) sample_children-IsValid sample_children-small

entries-encode_dir_example :
    (dir : ArchivedDir) × (Dir.new (encode_dir sample_children) ≡ ok dir)
    × (entries dir ≡ ok sample_children)
    × (len dir ≡ ok (length sample_children))
entries-encode_dir_example =
    entries-encode_dir sample_children sample_children-IsValid sample_children-small

-- A list at offset 5 whose one element is at offset 5.
abbrev cyclic_blob : List ℕ
cyclic_blob = 1 ∷ 0 ∷ 0 ∷ 0 ∷ 5 ∷ 1 ∷ 0 ∷ 0 ∷ 0 ∷ 1 ∷ 0 ∷ 0 ∷ 0 ∷ 5 ∷ []

cyclic-kind : kind (node_at cyclic_blob 5) ≡ ok list_kind
unfolding kind read_u8 slice
cyclic-kind = refl

cyclic-len : Node.len (node_at cyclic_blob 5) ≡ ok 1
unfolding Node.len read_u8 read_u32 slice from_be
cyclic-len = refl

cyclic-at : Node.at (node_at cyclic_blob 5) 0 ≡ ok (some (node_at cyclic_blob 5))
unfolding Node.at read_u8 read_u32 slice from_be
cyclic-at = refl

to_value-cycle_example : to_value any_chrono 1000 (node_at cyclic_blob 5) ≡ err out_of_fuel
to_value-cycle_example =
    to_value-cycle any_chrono (node_at cyclic_blob 5) 0 1000 cyclic-kind cyclic-len cyclic-at
