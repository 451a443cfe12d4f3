-- ===== src/Index/Definitions.antt =====
-- crates/arbordb/src/index/definitions: the description of an index, and the encoding of a tuple of
-- column values.
use arbordb.Common.{
  ℕ, List, [], ◌∷◌, Bool, true, false, Result, ok, err, corrupt, ◌==◌, if◌then◌else◌,
}
use arbordb.Data.Utf8.{Text}
use arbordb.Data.Scalar.{Scalar}
use arbordb.Path.Segment.{VPath}
use arbordb.Index.Ordered.{encode_scalar}

pub data Direction : Type 0 where
  asc : Direction
  desc : Direction

unfoldable pub to_byte : Direction → ℕ
to_byte asc = 0
to_byte desc = 1

unfoldable pub from_byte : ℕ → Result Direction
from_byte b = if b == 0 then ok asc else if b == 1 then ok desc else err corrupt

pub record IndexColumn : Type 0 where
  pub path : VPath
  pub direction : Direction

pub record IndexDef : Type 0 where
  pub name : Text
  pub pattern : Text
  pub columns : List IndexColumn
  pub unique : Bool

-- `direction == Direction::Desc`
abbrev pub is_desc : Direction → Bool
is_desc asc = false
is_desc desc = true

-- The loop of `encode_columns` over the values zipped with the columns: the shorter one ends it.
unfoldable pub encode_zipped : List ℕ → List Scalar → List IndexColumn → List ℕ
encode_zipped cols [] columns = cols
encode_zipped cols (v ∷ values) [] = cols
encode_zipped cols (v ∷ values) (c ∷ columns) =
    encode_zipped (encode_scalar cols v (is_desc c.direction)) values columns

unfoldable pub encode_columns : IndexDef → List Scalar → List ℕ
unfolding encode_zipped
encode_columns def values = encode_zipped [] values def.columns
