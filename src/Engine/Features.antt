-- ===== src/Engine/Features.antt =====
-- crates/arbordb/src/engine/features.rs: the features that a database requires, in its metadata.
use arbordb.Common.{
  ℕ, ◌%◌, ◌^◌, List, [], ◌∷◌, ◌++◌, Option, none, some, Bool, false, not, ◌||◌, if◌then◌else◌,
  length, Result, ok, err, database_protected, feature_required,
}
use arbordb.Codec.Putters.{put_u32, put_bytes}
use arbordb.Codec.Reader.{Decoder, ◌>>=◌, lift, new, u32, bytes, repeat}
use arbordb.Data.Utf8.{Text, from_utf8}
use arbordb.Path.Access.{same}
use arbordb.Store.{Store}

-- "permissions"
abbrev pub permissions_name : Text
permissions_name = 0x70 ∷ 0x65 ∷ 0x72 ∷ 0x6d ∷ 0x69 ∷ 0x73 ∷ 0x73 ∷ 0x69 ∷ 0x6f ∷ 0x6e ∷ 0x73 ∷ []

-- "entry-timestamps"
abbrev pub timestamps_name : Text
timestamps_name =
    0x65 ∷ 0x6e ∷ 0x74 ∷ 0x72 ∷ 0x79 ∷ 0x2d ∷ 0x74 ∷ 0x69 ∷ 0x6d ∷ 0x65 ∷ 0x73 ∷ 0x74 ∷ 0x61 ∷ 0x6d
    ∷ 0x70 ∷ 0x73 ∷ []

-- "requirements"
abbrev pub features_key : Text
features_key =
    0x72 ∷ 0x65 ∷ 0x71 ∷ 0x75 ∷ 0x69 ∷ 0x72 ∷ 0x65 ∷ 0x6d ∷ 0x65 ∷ 0x6e ∷ 0x74 ∷ 0x73 ∷ []

-- The two flags are what the build has.
unfoldable pub is_compiled : Bool → Bool → Text → Bool
is_compiled permissions timestamps name =
    if same name permissions_name
    then permissions
    else if same name timestamps_name
    then timestamps
    else false

unfoldable pub read_name : Decoder Text
read_name = do raw ← bytes; lift (from_utf8 raw)

unfoldable pub read_names : Decoder (List Text)
unfolding read_name
read_names = do count ← u32; repeat read_name count

unfoldable pub decode : List ℕ → Result (List Text)
unfolding read_names
decode blob = elim (read_names (new blob)) [ ok (names, r) ↦ ok names | err e ↦ err e ]

unfoldable pub is_listed : Text → List Text → Bool
is_listed name [] = false
is_listed name (existing ∷ names) = same existing name || is_listed name names

unfoldable pub put_names : List ℕ → List Text → List ℕ
put_names buf [] = buf
put_names buf (feature ∷ names) = put_names (put_bytes buf feature) names

unfoldable pub check_names : Bool → Bool → List Text → Result (Unit {0})
check_names permissions timestamps [] = ok tt
check_names permissions timestamps (name ∷ names) =
    let rest = check_names permissions timestamps names in
    if not (is_compiled permissions timestamps name)
    then (if same name permissions_name then err database_protected else err feature_required)
    else rest

-- What the record of the metadata lists.
unfoldable pub listed : Option (List ℕ) → Result (List Text)
unfolding decode
listed none = ok []
listed (some blob) = decode blob

module _ (meta : Store (List ℕ)) where
  unfoldable pub list : meta.Table → Result (List Text)
  list table = listed (meta.get table features_key)

  unfoldable pub check : Bool → Bool → meta.Table → Result (Unit {0})
  check permissions timestamps table = elim (list table) [
    | err e ↦ err e
    | ok names ↦ check_names permissions timestamps names
  ]

  unfoldable pub require : Text → meta.Table → Result meta.Table
  require name table = elim (list table) [
    | err e ↦ err e
    | ok names ↦
        if is_listed name names
        then ok table
        else ok (
            meta.insert features_key
              (put_names (put_u32 [] (length (names ++ name ∷ []) % 2 ^ 32)) (names ++ name ∷ []))
              table)
  ]
