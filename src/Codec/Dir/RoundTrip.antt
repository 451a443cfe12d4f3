-- ===== src/Codec/Dir/RoundTrip.antt =====
-- What reading a blob that `encode_dir` wrote gives: the child under a name, and all children in order.
use arbordb.Common.{
  ℕ, suc, ◌+◌, ◌*◌, ◌^◌, ◌<◌, ◌≡◌, refl, sym, ap, subst, ◌∙◌, List, [], ◌∷◌, ◌++◌, Option, none,
  some, length, get_elem?, arith, Result, ok,
}
use arbordb.Common.Be.{be, length-be}
use arbordb.Codec.Dir.{
  Children, ArchivedDir, encode_dir, new, len, get, entries, read_entries, entry_name,
  entry_name_bytes, entry_akey,
}
use arbordb.Codec.Dir.Names.{
  find, IsValid, name_at, get_elem?-name_at, get_elem?-lt, name_at-ascends, find-some, find-none,
}
use arbordb.Codec.Dir.Layout.{table, all_names, encode_dir-bytes, length-table, child_at}
use arbordb.Codec.Read.{read_u32, slice}
use arbordb.Codec.Read.At.{At-behind, fits, At, At-end, At-left, At-length, slice-At, read_u32-At}
use arbordb.Codec.Search.{Sorted, search_loop, search_loop-found, search_loop-missing}
use arbordb.Data.Utf8.{Text, from_utf8_lem}
use arbordb.Key.{AKey, IsAKey, into_bytes, length-into_bytes, from_bytes-into_bytes}

-- Where the parts of the blob stand.
module _ (cs : Children) (b : List ℕ) (small : length b < 2 ^ 32)
    (e : b ≡ be 4 (length cs) ++ (table (4 + length cs * 24) cs ++ all_names cs)) where
  whole_at : At b 0 (be 4 (length cs) ++ (table (4 + length cs * 24) cs ++ all_names cs))
  whole_at =
      subst (λ c. At c 0 (be 4 (length cs) ++ (table (4 + length cs * 24) cs ++ all_names cs)))
        (sym e) (At-end [] (be 4 (length cs) ++ (table (4 + length cs * 24) cs ++ all_names cs)))

  rest_at : At b 4 (table (4 + length cs * 24) cs ++ all_names cs)
  rest_at =
      At-behind b 0 4 (be 4 (length cs)) (table (4 + length cs * 24) cs ++ all_names cs)
        (length-be 4 (length cs)) whole_at

  names_at : At b (4 + length cs * 24) (all_names cs)
  names_at =
      At-behind b 4 (length cs * 24) (table (4 + length cs * 24) cs) (all_names cs)
        (length-table (4 + length cs * 24) cs) rest_at

  table_at : At b 4 (table (4 + length cs * 24) cs)
  table_at = At-left b 4 (table (4 + length cs * 24) cs) (all_names cs) rest_at

  count_lem : read_u32 b 0 ≡ ok (length cs)
  count_lem =
      read_u32-At b 0 (length cs) (fits b small)
        (omega (arith, At-length b (4 + length cs * 24) (all_names cs) names_at))
        (At-left b 0 (be 4 (length cs)) (table (4 + length cs * 24) cs ++ all_names cs) whole_at)

  -- The record of a child is read back.
  child_lem :
      (i : ℕ) (name : Text) (akey : AKey)
      → IsAKey akey
      → get_elem? cs i ≡ some (name, akey)
      → (entry_name_bytes (record { blob = b }) (4 + i * 24) ≡ ok name)
        × (entry_akey (record { blob = b }) (4 + i * 24) ≡ ok akey)
  unfolding entry_name_bytes entry_akey
  child_lem i name akey sized f =
      let (name_off, below, held, name_at) =
        child_at b 4 (4 + length cs * 24) i cs name akey table_at names_at f in
      let at = 4 + i * 24 in
      let tail =
        At-behind b at 4 (be 4 name_off) (be 4 (length name) ++ into_bytes akey)
          (length-be 4 name_off) held in
      let last =
        At-behind b (at + 4) 4 (be 4 (length name)) (into_bytes akey) (length-be 4 (length name))
          tail in
      let bounds = At-length b name_off name name_at in
      let off_read =
        read_u32-At b at name_off (fits b small) (omega arith)
          (At-left b at (be 4 name_off) (be 4 (length name) ++ into_bytes akey) held) in
      let len_read =
        read_u32-At b (at + 4) (length name) (fits b small) (omega arith)
          (At-left b (at + 4) (be 4 (length name)) (into_bytes akey) tail) in
      let key_read : slice b (at + 8) 16 ≡ ok (into_bytes akey) =
        subst (λ n. slice b (at + 8) n ≡ ok (into_bytes akey)) (length-into_bytes akey)
          (slice-At b (at + 8) (into_bytes akey) (fits b small) (rw (add_eight at) last)) in
      (
        rw (off_read, len_read) (slice-At b name_off name (fits b small) name_at),
        rw key_read (ap ok (from_bytes-into_bytes akey sized)),
      )
    where
      add_eight : (at : ℕ) → at + 8 ≡ at + 4 + 4
      add_eight at = omega arith

  names_Sorted :
      IsValid cs
      → Sorted
          (λ mid. entry_name_bytes (record { blob = b }) (4 + mid * 24))
          (length cs)
          (name_at cs)
  names_Sorted valid = record {
    reads = λ i below.
        let (akey, f) = get_elem?-name_at cs i below in
        (child_lem i (name_at cs i) akey (get_elem?-lt cs i (name_at cs i) akey valid f).2 f).0;
    ascends = λ i j less below. name_at-ascends cs i j valid less below;
  }

  get_lem : (name : Text) → IsValid cs → get (record { blob = b }) name ≡ ok (find name cs)
  unfolding get len
  get_lem name valid = rw count_lem (go (find name cs) refl)
    where
      hit : ℕ → Result AKey
      hit mid = entry_akey (record { blob = b }) (4 + mid * 24)

      go :
          (o : Option AKey)
          → find name cs ≡ o
          → search_loop
              (λ mid. entry_name_bytes (record { blob = b }) (4 + mid * 24))
              hit
              name
              (suc (length cs))
              0
              (length cs)
            ≡ ok o
      go none f =
          search_loop-missing hit name (length cs) (name_at cs) (names_Sorted valid)
            (suc (length cs)) 0 (length cs) (omega arith) (omega arith)
            (λ i below. find-none name cs i f below)
      go (some akey) f =
          let (i, place) = find-some name cs akey f in
          let (below, same, sized) = get_elem?-lt cs i name akey valid place in
          search_loop-found hit name (length cs) (name_at cs) (names_Sorted valid) (suc (length cs))
            0 (length cs) i (omega arith) (omega arith) below (omega arith) same
          ∙ rw (child_lem i name akey sized place).1 refl

  read_entries_lem :
      (i : ℕ) (rest : Children)
      → IsValid rest
      → ((j : ℕ) (name : Text) (akey : AKey)
          → get_elem? rest j ≡ some (name, akey)
          → get_elem? cs (i + j) ≡ some (name, akey))
      → read_entries (record { blob = b }) i (length rest) ≡ ok rest
  unfolding read_entries entry_name
  read_entries_lem i [] valid within = refl
  read_entries_lem i ((name, akey) ∷ rest) valid within =
      let (name_read, key_read) =
        child_lem i name akey valid.1 (rw (sym add_zero) (within 0 name akey refl)) in
      rw (
        name_read,
        from_utf8_lem name valid.0,
        key_read,
        read_entries_lem (i + 1) rest valid.3
            (λ j n k f. rw (sym (add_suc j)) (within (suc j) n k f)),
      )
    where
      add_zero : i + 0 ≡ i
      add_zero = omega arith

      add_suc : (j : ℕ) → i + suc j ≡ i + 1 + j
      add_suc j = omega arith

-- The blob of a directory's children, below 4 GiB, opens; `get` finds in it for every name exactly
-- the key that the children have under it, or none.
pub get-encode_dir :
    (cs : Children) (name : Text)
    → IsValid cs
    → length (encode_dir cs) < 2 ^ 32
    → (dir : ArchivedDir) × (new (encode_dir cs) ≡ ok dir) × (get dir name ≡ ok (find name cs))
unfolding new
get-encode_dir cs name valid small =
    let e = encode_dir-bytes cs small in
    (
      record { blob = encode_dir cs },
      rw (count_lem cs (encode_dir cs) small e),
      get_lem cs (encode_dir cs) small e name valid,
    )

-- The same blob lists all the children again, in the order of their names, and counts them.
pub entries-encode_dir :
    (cs : Children)
    → IsValid cs
    → length (encode_dir cs) < 2 ^ 32
    → (dir : ArchivedDir) × (new (encode_dir cs) ≡ ok dir)
      × (entries dir ≡ ok cs)
      × (len dir ≡ ok (length cs))
unfolding new entries len
entries-encode_dir cs valid small =
    let e = encode_dir-bytes cs small in
    let count = count_lem cs (encode_dir cs) small e in
    (
      record { blob = encode_dir cs },
      rw count,
      rw count (
          read_entries_lem cs (encode_dir cs) small e 0 cs valid
            (λ j name akey f. rw (zero_add j) f)),
      count,
    )
  where
    zero_add : (j : ℕ) → 0 + j ≡ j
    zero_add j = omega arith
