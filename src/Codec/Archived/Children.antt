-- ===== src/Codec/Archived/Children.antt =====
-- The elements of a list and the entries of an object, as the cursors reach them.
use arbordb.Common.{
  ℕ, zero, suc, ◌+◌, ◌*◌, ◌^◌, ◌≤◌, ◌<◌, ◌≡◌, refl, subst, ◌∙◌, List, ◌++◌, none, some, length,
  arith, ok,
}
use arbordb.Common.Be.{be, length-be}
use arbordb.Codec.Read.{read_u32}
use arbordb.Codec.Read.At.{At-behind, fits, At, At-left, slice-At, read_u32-At}
use arbordb.Codec.Search.{Sorted, search_loop-found, search_loop-missing}
use arbordb.Codec.Archived.Write.{list_tag, node_tag}
use arbordb.Codec.Archived.Node.{node_at, at, get, entry_name_bytes, entry_child}
use arbordb.Codec.Archived.Repr.{Repr, Repr-lt, ReprItems, ReprEntries}
use mathlib.Core.Option.{some-injective}
use arbordb.Codec.Archived.Reads.{read_tag, read_count}
use arbordb.Data.Utf8.{Text}
use arbordb.Data.Scalar.{Chrono}
use arbordb.Value.Keys.{
  get_entry, key_at, get_entry-key_at, get_entry-lt, key_at-ascends, lookup-some, lookup-none,
}
use arbordb.Value.Tree.{
  Value, Items, Entries, list, node, nil, cons, end, entry, count_items, count_entries, get_item,
  lookup, EntriesValid,
}

module _ (b : List ℕ) (small : length b < 2 ^ 32) where
  read_field : (off n : ℕ) → n < 2 ^ 32 → At b off (be 4 n) → read_u32 b off ≡ ok n
  read_field off n hn held = read_u32-At b off n (fits b small) hn held

  -- The offset of the `i`th element stands in the `i`th place of the table.
  item_at :
      (table : ℕ) (xs : Items) (i : ℕ) (x : Value)
      → ReprItems b table xs
      → get_item xs i ≡ some x
      → (i < count_items xs)
        × (child : ℕ) × (read_u32 b (table + i * 4) ≡ ok child)
        × Repr b child x
  item_at table nil i x h e = cc
  item_at table (cons y ys) zero x ((child, lo, held, r), rest) e = (
    omega arith,
    child,
    rw add_zero (read_field table child (Repr-lt b child y r) held),
    subst (λ v. Repr b child v) (some-injective y x e) r,
  )
    where
      add_zero : table + 0 * 4 ≡ table
      add_zero = omega arith
  item_at table (cons y ys) (suc i) x (first, rest) e =
      let (below, child, read, r) = item_at (table + 4) ys i x rest e in
      (omega arith, child, rw shift read, r)
    where
      shift : table + suc i * 4 ≡ table + 4 + i * 4
      shift = omega arith

  past_items : (xs : Items) (i : ℕ) → get_item xs i ≡ none → count_items xs ≤ i
  past_items nil i e = omega arith
  past_items (cons x xs) zero e = cc
  past_items (cons x xs) (suc i) e = omega (arith, past_items xs i e)

  -- `at` reaches the element that is there, and finds none where there is none.
  pub at-some :
      (off : ℕ) (xs : Items) (i : ℕ) (x : Value)
      → Repr b off (list xs)
      → get_item xs i ≡ some x
      → (child : ℕ) × (at (node_at b off) i ≡ ok (some (node_at b child))) × Repr b child x
  unfolding at
  at-some off xs i x h e =
      let (below, child, read, r) = item_at (off + 5) xs i x h.2 e in
      let count = read_count b small off list_tag (count_items xs) h.1 h.0.2 in
      (child, ground (arith, read_tag b small off (list xs) h, count, read, below), r)

  pub at-none :
      (off : ℕ) (xs : Items) (i : ℕ)
      → Repr b off (list xs)
      → get_item xs i ≡ none
      → at (node_at b off) i ≡ ok none
  unfolding at
  at-none off xs i h e =
      let count = read_count b small off list_tag (count_items xs) h.1 h.0.2 in
      ground (arith, read_tag b small off (list xs) h, count, past_items xs i e)

  -- The record of the `i`th entry stands in the `i`th place of the table.
  pub entry_at :
      (off table : ℕ) (es : Entries) (i : ℕ) (k : Text) (v : Value)
      → ReprEntries b table es
      → get_entry es i ≡ some (k, v)
      → (child : ℕ) × (entry_name_bytes (node_at b off) (table + i * 12) ≡ ok k)
        × (entry_child (node_at b off) (table + i * 12) ≡ ok (node_at b child))
        × Repr b child v
  unfolding entry_name_bytes entry_child
  entry_at off table end i k v h e = cc
  entry_at off table (entry j w es) zero k v ((name_off, child, lo, held, short, placed, r), rest)
        e =
      let same_key : j ≡ k = cc in
      let same_value : w ≡ v = cc in
      let tail =
        At-behind b table 4 (be 4 name_off) (be 4 (length j) ++ be 4 child) (length-be 4 name_off)
          held in
      let last =
        At-behind b (table + 4) 4 (be 4 (length j)) (be 4 child) (length-be 4 (length j)) tail in
      let name_read =
        read_field table name_off placed.1
          (At-left b table (be 4 name_off) (be 4 (length j) ++ be 4 child) held) in
      let len_read =
        read_field (table + 4) (length j) short
          (At-left b (table + 4) (be 4 (length j)) (be 4 child) tail) in
      let child_read = read_field (table + 8) child (Repr-lt b child w r) (rw add_eight last) in
      (
        child,
        rw (add_zero, name_read, len_read, slice-At b name_off j (fits b small) placed.2, same_key),
        rw (add_zero, child_read),
        subst (λ x. Repr b child x) same_value r,
      )
    where
      add_zero : table + 0 * 12 ≡ table
      add_zero = omega arith

      add_eight : table + 8 ≡ table + 4 + 4
      add_eight = omega arith
  entry_at off table (entry j w es) (suc i) k v (first, rest) e =
      let (child, name, found_child, r) = entry_at off (table + 12) es i k v rest e in
      (child, rw shift name, rw shift found_child, r)
    where
      shift : table + suc i * 12 ≡ table + 12 + i * 12
      shift = omega arith

  names_Sorted :
      (chrono : Chrono) (off : ℕ) (es : Entries)
      → Repr b off (node es)
      → EntriesValid chrono es
      → Sorted
          (λ mid. entry_name_bytes (node_at b off) (off + 5 + mid * 12))
          (count_entries es)
          (key_at es)
  names_Sorted chrono off es h valid = record {
    reads = λ i below.
        let (v, e) = get_entry-key_at es i below in
        (entry_at off (off + 5) es i (key_at es i) v h.2 e).1;
    ascends = λ i j less below. key_at-ascends chrono es i j valid less below;
  }

  -- `get` reaches the field that is there, and finds none where there is none.
  pub get-some :
      (chrono : Chrono) (off : ℕ) (es : Entries) (k : Text) (x : Value)
      → Repr b off (node es)
      → EntriesValid chrono es
      → lookup k es ≡ some x
      → (child : ℕ) × (get (node_at b off) k ≡ ok (some (node_at b child))) × Repr b child x
  unfolding get
  get-some chrono off es k x h valid e =
      let (i, place) = lookup-some k es x e in
      let (below, same) = get_entry-lt es i k x place in
      let (child, name, found_child, r) = entry_at off (off + 5) es i k x h.2 place in
      let count = read_count b small off node_tag (count_entries es) h.1 h.0.2 in
      let hit =
        search_loop-found (λ mid. entry_child (node_at b off) (off + 5 + mid * 12)) k
          (count_entries es) (key_at es) (names_Sorted chrono off es h valid)
          (suc (count_entries es)) 0 (count_entries es) i (omega arith) (omega arith) below
          (omega arith) same in
      (child, rw (read_tag b small off (node es) h, count) (hit ∙ rw found_child refl), r)

  pub get-none :
      (chrono : Chrono) (off : ℕ) (es : Entries) (k : Text)
      → Repr b off (node es)
      → EntriesValid chrono es
      → lookup k es ≡ none
      → get (node_at b off) k ≡ ok none
  unfolding get
  get-none chrono off es k h valid e =
      let count = read_count b small off node_tag (count_entries es) h.1 h.0.2 in
      let missing =
        search_loop-missing (λ mid. entry_child (node_at b off) (off + 5 + mid * 12)) k
          (count_entries es) (key_at es) (names_Sorted chrono off es h valid)
          (suc (count_entries es)) 0 (count_entries es) (omega arith) (omega arith)
          (λ i below. lookup-none chrono k es i valid e below) in
      rw (read_tag b small off (node es) h, count) missing
