-- ===== src/Codec/Dir.antt =====
-- crates/arbordb/src/codec/dir.rs: the blob of a directory's children.
pub mod Names
pub mod Layout
pub mod RoundTrip
use arbordb.Common.{
  ℕ, zero, suc, ◌+◌, ◌*◌, ◌%◌, ◌^◌, List, [], ◌∷◌, ◌++◌, Option, length, Result, ok, ◌>>=◌,
}
use arbordb.Key.{AKey, into_bytes, from_bytes}
use arbordb.Codec.Putters.{put_u32}
use arbordb.Codec.Read.{read_u32, slice}
use arbordb.Codec.Search.{search_loop}
use arbordb.Data.Utf8.{Text, from_utf8}

-- `ENTRY`
abbrev pub entry_size : ℕ
entry_size = 24

-- `BTreeMap<SmolStr, AKey>` in the order in which it iterates.
abbrev pub Children : Type 0
Children = List (Text × AKey)

-- The loop of `encode_dir`, with its two buffers `out` and `names`.
unfoldable pub put_children : ℕ → List ℕ → List ℕ → Children → List ℕ × List ℕ
unfolding put_u32 into_bytes
put_children names_start out names [] = (out, names)
put_children names_start out names ((name, akey) ∷ rest) =
    put_children names_start
      (put_u32 (put_u32 out ((names_start + length names) % 2 ^ 32)) (length name % 2 ^ 32)
        ++ into_bytes akey)
      (names ++ name) rest

unfoldable pub encode_dir : Children → List ℕ
unfolding put_children
encode_dir children =
    let (out, names) =
      put_children (4 + length children * entry_size) (put_u32 [] (length children % 2 ^ 32)) []
        children in
    out ++ names

pub record ArchivedDir : Type 0 where
  pub blob : List ℕ

unfoldable pub new : List ℕ → Result ArchivedDir
new blob = do count ← read_u32 blob 0; ok (record { blob = blob })

unfoldable pub len : ArchivedDir → Result ℕ
len dir = read_u32 dir.blob 0

unfoldable pub entry_name_bytes : ArchivedDir → ℕ → Result (List ℕ)
entry_name_bytes dir entry = do
  name_off ← read_u32 dir.blob entry
  name_len ← read_u32 dir.blob (entry + 4)
  slice dir.blob name_off name_len

unfoldable pub entry_name : ArchivedDir → ℕ → Result Text
unfolding entry_name_bytes
entry_name dir entry = do bytes ← entry_name_bytes dir entry; from_utf8 bytes

unfoldable pub entry_akey : ArchivedDir → ℕ → Result AKey
unfolding from_bytes
entry_akey dir entry = do bytes ← slice dir.blob (entry + 8) 16; ok (from_bytes bytes)

-- The search is given a round for each entry and one more; `Search` shows that it ends in them.
unfoldable pub get : ArchivedDir → Text → Result (Option AKey)
unfolding len entry_name_bytes entry_akey
get dir name = do
  count ← len dir
  search_loop (λ mid. entry_name_bytes dir (4 + mid * entry_size))
      (λ mid. entry_akey dir (4 + mid * entry_size)) name (suc count) 0 count

-- `for i in 0..count`, from `i` on, `left` rounds to go.
unfoldable pub read_entries : ArchivedDir → ℕ → ℕ → Result Children
unfolding entry_name entry_akey
read_entries dir i zero = ok []
read_entries dir i (suc left) = do
  name ← entry_name dir (4 + i * entry_size)
  akey ← entry_akey dir (4 + i * entry_size)
  rest ← read_entries dir (i + 1) left
  ok ((name, akey) ∷ rest)

unfoldable pub entries : ArchivedDir → Result Children
unfolding len read_entries
entries dir = do count ← len dir; read_entries dir 0 count
