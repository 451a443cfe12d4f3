-- ===== src/Codec/Archived/Node.antt =====
-- The reading half of archived.rs: a cursor at one vnode of a blob, and a validated blob.
use arbordb.Common.{
  ℕ, zero, suc, ◌+◌, ◌*◌, List, [], ◌∷◌, Option, none, some, not, length, leb, ◌==◌, if◌then◌else◌,
  Result, ok, err, corrupt, schema_mismatch, out_of_fuel, ◌>>=◌,
}
use arbordb.Codec.Read.{slice, read_u8, read_u32, get_range, ok_or_corrupt}
use arbordb.Codec.Reader.{Reader, new, position}
use arbordb.Codec.Search.{search_loop}
use arbordb.Codec.Archived.Write.{format_version, leaf_tag, list_tag, node_tag}
use arbordb.Data.Utf8.{Text, from_utf8}
use arbordb.Data.Scalar.{Chrono, Scalar}
use arbordb.Data.Scalar
use arbordb.Path.Segment.{Segment, VPath}
use arbordb.Value.Tree.{Value, Items, Entries, leaf, list, node, nil, cons, end, insert}

-- `NodeKind` of crates/arbordb/src/vnode/kind.rs
pub data NodeKind : Type 0 where
  object_kind : NodeKind
  list_kind : NodeKind
  leaf_kind : NodeKind

pub record ArchivedNode : Type 0 where
  pub blob : List ℕ
  pub off : ℕ

abbrev pub node_at : List ℕ → ℕ → ArchivedNode
node_at blob off = record { blob = blob; off = off }

kind_of : ℕ → Result NodeKind
kind_of tag =
    if tag == leaf_tag
    then ok leaf_kind
    else if tag == list_tag
    then ok list_kind
    else if tag == node_tag
    then ok object_kind
    else err corrupt

unfoldable pub kind : ArchivedNode → Result NodeKind
unfolding kind_of
kind n = do tag ← read_u8 n.blob n.off; kind_of tag

-- `self.blob.get(off + 1..)`
unfoldable pub body_of : ArchivedNode → Result (List ℕ)
body_of n = ok_or_corrupt (get_range n.blob (n.off + 1) (length n.blob))

module _ (chrono : Chrono) where
  unfoldable pub decode_at : ArchivedNode → Result (Scalar × Reader)
  unfolding body_of
  decode_at n = do body ← body_of n; Scalar.decode chrono (new body)

  unfoldable pub scalar : ArchivedNode → Result Scalar
  scalar n = do
    tag ← read_u8 n.blob n.off
    if not (tag == leaf_tag) then err corrupt else do (s, r) ← decode_at n; ok s

  unfoldable pub scalar_if_leaf : ArchivedNode → Result (Option Scalar)
  scalar_if_leaf n = do
    tag ← read_u8 n.blob n.off
    if not (tag == leaf_tag) then ok none else do (s, r) ← decode_at n; ok (some s)

  -- The offset and length of a leaf's encoded scalar, measured by decoding it.
  unfoldable pub leaf_scalar_span : ArchivedNode → Result (Option (ℕ × ℕ))
  leaf_scalar_span n = do
    tag ← read_u8 n.blob n.off
    if not (tag == leaf_tag)
        then ok none
        else do (s, r) ← decode_at n; ok (some (n.off + 1, position r))

unfoldable pub len : ArchivedNode → Result ℕ
len n = do
  tag ← read_u8 n.blob n.off
  if not (tag == list_tag) then err corrupt else read_u32 n.blob (n.off + 1)

unfoldable pub at : ArchivedNode → ℕ → Result (Option ArchivedNode)
at n i = do
  tag ← read_u8 n.blob n.off
  if not (tag == list_tag) then ok none else do
    count ← read_u32 n.blob (n.off + 1)
    if leb count i
        then ok none
        else do child ← read_u32 n.blob (n.off + 5 + i * 4); ok (some (node_at n.blob child))

unfoldable pub entry_name_bytes : ArchivedNode → ℕ → Result (List ℕ)
entry_name_bytes n entry = do
  name_off ← read_u32 n.blob entry
  name_len ← read_u32 n.blob (entry + 4)
  slice n.blob name_off name_len

unfoldable pub entry_name : ArchivedNode → ℕ → Result Text
unfolding entry_name_bytes
entry_name n entry = do bytes ← entry_name_bytes n entry; from_utf8 bytes

unfoldable pub entry_child : ArchivedNode → ℕ → Result ArchivedNode
entry_child n entry = do child ← read_u32 n.blob (entry + 8); ok (node_at n.blob child)

-- The search is given a round for each entry and one more; `Search` shows that it ends in them.
unfoldable pub get : ArchivedNode → Text → Result (Option ArchivedNode)
unfolding entry_name_bytes entry_child
get n needle = do
  tag ← read_u8 n.blob n.off
  if not (tag == node_tag) then ok none else do
    count ← read_u32 n.blob (n.off + 1)
    let table = n.off + 5
    search_loop (λ mid. entry_name_bytes n (table + mid * 12))
        (λ mid. entry_child n (table + mid * 12)) needle (suc count) 0 count

-- `for i in 0..count`, from `i` on, `left` rounds to go.
unfoldable pub read_entries : ArchivedNode → ℕ → ℕ → ℕ → Result (List (Text × ArchivedNode))
unfolding entry_name entry_child
read_entries n table i zero = ok []
read_entries n table i (suc left) = do
  name ← entry_name n (table + i * 12)
  child ← entry_child n (table + i * 12)
  rest ← read_entries n table (i + 1) left
  ok ((name, child) ∷ rest)

unfoldable pub entries : ArchivedNode → Result (List (Text × ArchivedNode))
unfolding read_entries
entries n = do
  tag ← read_u8 n.blob n.off
  if not (tag == node_tag)
      then err corrupt
      else do count ← read_u32 n.blob (n.off + 1); read_entries n (n.off + 5) 0 count

names_of : List (Text × ArchivedNode) → List Text
names_of [] = []
names_of ((name, child) ∷ rest) = name ∷ names_of rest

unfoldable pub object_keys : ArchivedNode → Result (List Text)
unfolding names_of
object_keys n = do found ← entries n; ok (names_of found)

unfoldable pub step : ArchivedNode → Segment → Result (Option ArchivedNode)
step n (Segment.name s) = get n s
step n (Segment.index i) = at n i

unfoldable pub navigate_segments : ArchivedNode → List Segment → Result (Option ArchivedNode)
unfolding step
navigate_segments n [] = ok (some n)
navigate_segments n (segment ∷ segments) = elim (step n segment) [
  | err e ↦ err e
  | ok none ↦ ok none
  | ok (some child) ↦ navigate_segments child segments
]

unfoldable pub navigate : ArchivedNode → VPath → Result (Option ArchivedNode)
unfolding navigate_segments
navigate n path = navigate_segments n path.segments

-- The loops of `to_value`, over the conversion of a child.
module _ (convert : ArchivedNode → Result Value) where
  unfoldable pub read_items : ArchivedNode → ℕ → ℕ → Result Items
  read_items n i zero = ok nil
  read_items n i (suc left) = do
    found ← at n i
    child ← ok_or_corrupt found
    item ← convert child
    rest ← read_items n (i + 1) left
    ok (cons item rest)

  unfoldable pub insert_all : List (Text × ArchivedNode) → Entries → Result Entries
  insert_all [] map = ok map
  insert_all ((name, child) ∷ rest) map = do
    value ← convert child
    insert_all rest (insert name value map)

  unfoldable pub convert_kind : ArchivedNode → Chrono → NodeKind → Result Value
  unfolding read_items insert_all
  convert_kind n chrono leaf_kind = do s ← scalar chrono n; ok (leaf s)
  convert_kind n chrono list_kind = do count ← len n; items ← read_items n 0 count; ok (list items)
  convert_kind n chrono object_kind = do
    found ← entries n
    map ← insert_all found end
    ok (node map)

-- The recursion of `to_value` on fuel, which bounds the depth of nesting. A blob in which a child is
-- its own ancestor has no finite depth; there the code recurses until the stack is used up.
unfoldable pub to_value : Chrono → ℕ → ArchivedNode → Result Value
unfolding convert_kind
to_value chrono zero n = err out_of_fuel
to_value chrono (suc fuel) n = do k ← kind n; convert_kind (to_value chrono fuel) n chrono k

pub record ArchivedValue : Type 0 where
  pub bytes : List ℕ
  pub root_offset : ℕ

-- `ArchivedValue::new`
unfoldable pub open_blob : List ℕ → Result ArchivedValue
open_blob [] = err corrupt
open_blob (version ∷ rest) = if not (version == format_version) then err schema_mismatch else do
  root ← read_u32 (version ∷ rest) 1
  ok (record { bytes = version ∷ rest; root_offset = root })

abbrev pub root : ArchivedValue → ArchivedNode
root v = node_at v.bytes v.root_offset

-- The nesting of a value that `encode` wrote is at most the length of its blob.
unfoldable pub decode : Chrono → List ℕ → Result Value
unfolding open_blob to_value
decode chrono blob = do view ← open_blob blob; to_value chrono (length blob) (root view)

-- `ArchivedValue::leaf_scalar_span`
unfoldable pub span_at : Chrono → ArchivedValue → VPath → Result (Option (ℕ × ℕ))
unfolding navigate leaf_scalar_span
span_at chrono v path = elim (navigate (root v) path) [
  | err e ↦ err e
  | ok none ↦ ok none
  | ok (some n) ↦ leaf_scalar_span chrono n
]
