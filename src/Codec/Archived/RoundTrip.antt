-- ===== src/Codec/Archived/RoundTrip.antt =====
-- What reading a blob that `encode` wrote gives: the value, its subtrees, and the bytes of its leaves.
use arbordb.Common.{
  ℕ, ◌+◌, ◌^◌, ◌<◌, ◌≡◌, refl, sym, ap, subst, ◌∙◌, List, [], ◌∷◌, ◌++◌, Option, none, some, length,
  arith, Result, ok,
}
use arbordb.Common.Be.{be}
use arbordb.Codec.Read.{read_u32, slice}
use arbordb.Codec.Read.At.{At-behind, fits, At, slice-At, At-end, At-append, read_u32-At}
use arbordb.Codec.Archived.Node.{
  ArchivedNode, ArchivedValue, node_at, open_blob, root, decode, navigate, to_value, span_at,
  navigate_segments, leaf_scalar_span,
}
use arbordb.Codec.Archived.Write.{encode}
use arbordb.Value.Depth.{depth}
use arbordb.Codec.Archived.Repr.{Repr, Repr-lt}
use arbordb.Codec.Archived.Encode.{encode-Encoded}
use arbordb.Codec.Archived.Depth.{depth-le-length}
use arbordb.Codec.Archived.Reads.{scalar_lem}
use arbordb.Codec.Archived.Converts.{to_value_lem}
use arbordb.Codec.Archived.Navigates.{Lands, navigate_segments_lem}
use arbordb.Data.Scalar.{Chrono, Scalar}
use arbordb.Data.Scalar
use arbordb.Data.Scalar.RoundTrip.{encoded, encode-append}
use arbordb.Path.Segment.{VPath}
use arbordb.Value.Tree.{Value, leaf, IsValid}
use arbordb.Value.Access.{subtree, subtree_segments, subtree_segments-IsValid}

open_blob-eq :
    (r : ℕ) (b rest : List ℕ)
    → b ≡ (1 ∷ be 4 r) ++ rest
    → read_u32 b 1 ≡ ok r
    → open_blob b ≡ ok (record { bytes = b; root_offset = r })
unfolding open_blob
open_blob-eq r b rest e read = rw e (rw (subst (λ c. read_u32 c 1 ≡ ok r) e read) refl)

-- The view that `open_blob` gives of an encoded value.
abbrev view_of : Value → ArchivedValue
view_of v = record { bytes = encode v; root_offset = (encode-Encoded v).root }

module _ (v : Value) (small : length (encode v) < 2 ^ 32) where
  root_Repr : Repr (encode v) (view_of v).root_offset v
  root_Repr = (encode-Encoded v).holds small

  open_lem : open_blob (encode v) ≡ ok (view_of v)
  open_lem =
      let written = encode-Encoded v in
      let header = 1 ∷ be 4 written.root in
      let held : At (header ++ written.rest) 1 (be 4 written.root) =
        At-append header written.rest 1 (be 4 written.root) (At-end (1 ∷ []) (be 4 written.root)) in
      let read =
        read_u32-At (encode v) 1 written.root (fits (encode v) small)
          (Repr-lt (encode v) written.root v root_Repr)
          (subst (λ b. At b 1 (be 4 written.root)) (sym written.bytes_eq) held) in
      open_blob-eq written.root (encode v) written.rest written.bytes_eq read

-- Decoding the blob of a valid value gives the value, as long as the blob is below the 4 GiB that its
-- 32-bit offsets reach.
pub decode-encode :
    (chrono : Chrono) (v : Value)
    → IsValid chrono v
    → length (encode v) < 2 ^ 32
    → decode chrono (encode v) ≡ ok v
unfolding decode
decode-encode chrono v valid small = rw (open_lem v small) (
    to_value_lem chrono (encode v) small (length (encode v)) (view_of v).root_offset v
      (root_Repr v small) valid (depth-le-length v))

-- A cursor that converts to the value, or none where there is no value.
abbrev pub Reaches : Chrono → Option Value → Result (Option ArchivedNode) → Type 0
Reaches chrono none reached = reached ≡ ok none
Reaches chrono (some x) reached =
    (n : ArchivedNode) × (reached ≡ ok (some n)) × (to_value chrono (depth x) n ≡ ok x)

Reaches-Lands :
    (chrono : Chrono) (b : List ℕ) (o : Option Value) (reached : Result (Option ArchivedNode))
    → length b < 2 ^ 32
    → ((x : Value) → o ≡ some x → IsValid chrono x)
    → Lands b o reached
    → Reaches chrono o reached
Reaches-Lands chrono b none reached small valid lands = lands
Reaches-Lands chrono b (some x) reached small valid (off, e, r) =
    (node_at b off, e, to_value_lem chrono b small (depth x) off x r (valid x refl) (omega arith))

-- The blob of a valid value below 4 GiB opens, and navigation in it along any path reaches a cursor
-- that converts to the subtree of the value at that path, or nothing where the value has none.
pub navigate-encode :
    (chrono : Chrono) (v : Value) (path : VPath)
    → IsValid chrono v
    → length (encode v) < 2 ^ 32
    → (view : ArchivedValue) × (open_blob (encode v) ≡ ok view)
      × Reaches chrono (subtree v path) (navigate (root view) path)
unfolding navigate subtree
navigate-encode chrono v path valid small = (
  view_of v,
  open_lem v small,
  Reaches-Lands chrono (encode v) (subtree_segments v path.segments)
      (navigate_segments (root (view_of v)) path.segments) small
      (λ x e. subtree_segments-IsValid chrono path.segments v x valid e)
      (navigate_segments_lem chrono (encode v) small path.segments (view_of v).root_offset v
        (root_Repr v small) valid),
)

span_at-reached :
    (chrono : Chrono) (view : ArchivedValue) (path : VPath) (n : ArchivedNode)
    → navigate (root view) path ≡ ok (some n)
    → span_at chrono view path ≡ leaf_scalar_span chrono n
unfolding span_at
span_at-reached chrono view path n e = rw (span_at, e)

-- Where a path leads to a leaf, the span that `leaf_scalar_span` measures in the blob of a valid value
-- below 4 GiB holds the encoding of that leaf's scalar and nothing else.
pub span_at-encode :
    (chrono : Chrono) (v : Value) (path : VPath) (s : Scalar)
    → IsValid chrono v
    → length (encode v) < 2 ^ 32
    → subtree v path ≡ some (leaf s)
    → (view : ArchivedValue) × (start : ℕ) × (len : ℕ) × (open_blob (encode v) ≡ ok view)
      × (span_at chrono view path ≡ ok (some (start, len)))
      × (slice (encode v) start len ≡ ok (Scalar.encode s []))
unfolding span_at navigate subtree
span_at-encode chrono v path s valid small e =
    let lands =
      navigate_segments_lem chrono (encode v) small path.segments (view_of v).root_offset v
        (root_Repr v small) valid in
    let (off, reached, r) =
      subst (λ o. Lands (encode v) o (navigate_segments (root (view_of v)) path.segments)) e
        lands in
    let span =
      scalar_lem (encode v) small chrono off s
        (subtree_segments-IsValid chrono path.segments v (leaf s) valid e) r in
    (
      view_of v,
      off + 1,
      length (encoded s),
      open_lem v small,
      span_at-reached chrono (view_of v) path (node_at (encode v) off) reached ∙ span.2,
      slice-At (encode v) (off + 1) (encoded s) (fits (encode v) small)
            (At-behind (encode v) off 1 (0 ∷ []) (encoded s) refl r.2)
          ∙ ap ok (sym (encode-append s [])),
    )
