-- ===== src/Codec/Archived/Write.antt =====
-- The writing half of archived.rs. A function that appends to `buf: &mut Vec<u8>` returns the new
-- buffer beside its result.
use arbordb.Common.{ℕ, ◌%◌, ◌^◌, List, [], ◌∷◌, ◌++◌, length, take, drop}
use arbordb.Common.Be.{be}
use arbordb.Codec.Putters.{put_u32}
use arbordb.Data.Utf8.{Text}
use arbordb.Data.Scalar.{Scalar}
use arbordb.Data.Scalar
use arbordb.Value.Tree.{Value, Items, Entries, leaf, list, node, nil, cons, end, entry}

abbrev pub format_version : ℕ
format_version = 1

abbrev pub header_len : ℕ
header_len = 5

abbrev pub leaf_tag : ℕ
leaf_tag = 0

abbrev pub list_tag : ℕ
list_tag = 1

abbrev pub node_tag : ℕ
node_tag = 2

-- The cast of the length to `u32` keeps its low 32 bits; the assertion is off in release builds.
unfoldable pub offset : List ℕ → ℕ
offset buf = length buf % 2 ^ 32

unfoldable pub begin_blob : List ℕ
begin_blob = (format_version ∷ []) ++ be 4 0

-- `buf[1..HEADER_LEN]` is overwritten.
unfoldable pub patch_root : List ℕ → ℕ → List ℕ
patch_root buf root = take 1 buf ++ be 4 root ++ drop header_len buf

unfoldable pub push_leaf : List ℕ → Scalar → ℕ × List ℕ
unfolding offset
push_leaf buf scalar = (offset buf, Scalar.encode scalar (buf ++ leaf_tag ∷ []))

-- `for child in children { put_u32(buf, *child) }`
unfoldable pub put_offsets : List ℕ → List ℕ → List ℕ
unfolding put_u32
put_offsets buf [] = buf
put_offsets buf (child ∷ children) = put_offsets (put_u32 buf child) children

unfoldable pub push_list : List ℕ → List ℕ → ℕ × List ℕ
unfolding offset put_offsets
push_list buf children =
    (offset buf, put_offsets (put_u32 (buf ++ list_tag ∷ []) (length children % 2 ^ 32)) children)

-- Name offset, name length, child offset.
abbrev pub EntryRecord : Type 0
EntryRecord = ℕ × ℕ × ℕ

-- The first loop of `push_object` writes the names.
unfoldable pub put_names : List ℕ → List (Text × ℕ) → List EntryRecord × List ℕ
unfolding offset
put_names buf [] = ([], buf)
put_names buf ((name, child_off) ∷ entries) =
    let (records, buf') = put_names (buf ++ name) entries in
    ((offset buf, length name % 2 ^ 32, child_off) ∷ records, buf')

-- The second loop writes the entry table.
unfoldable pub put_records : List ℕ → List EntryRecord → List ℕ
unfolding put_u32
put_records buf [] = buf
put_records buf ((name_off, name_len, child_off) ∷ records) =
    put_records (put_u32 (put_u32 (put_u32 buf name_off) name_len) child_off) records

unfoldable pub push_object : List ℕ → List (Text × ℕ) → ℕ × List ℕ
unfolding put_names put_records
push_object buf entries =
    let (records, named) = put_names buf entries in
    (offset named, put_records (put_u32 (named ++ node_tag ∷ []) (length records % 2 ^ 32)) records)

unfoldable mutual
  unfolding push_leaf push_list push_object

  pub push_value : Value → List ℕ → ℕ × List ℕ
  push_value (leaf scalar) buf = push_leaf buf scalar
  push_value (list items) buf =
      let (child_offsets, written) = push_items items buf in push_list written child_offsets
  push_value (node map) buf =
      let (entries, written) = push_entries map buf in push_object written entries

  pub push_items : Items → List ℕ → List ℕ × List ℕ
  push_items nil buf = ([], buf)
  push_items (cons item items) buf =
      let (child_off, written) = push_value item buf in
      let (child_offsets, written') = push_items items written in
      (child_off ∷ child_offsets, written')

  pub push_entries : Entries → List ℕ → List (Text × ℕ) × List ℕ
  push_entries end buf = ([], buf)
  push_entries (entry name child map) buf =
      let (child_off, written) = push_value child buf in
      let (entries, written') = push_entries map written in ((name, child_off) ∷ entries, written')

unfoldable pub encode : Value → List ℕ
unfolding push_value begin_blob patch_root
encode value = let (root, buf) = push_value value begin_blob in patch_root buf root
