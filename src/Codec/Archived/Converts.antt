-- ===== src/Codec/Archived/Converts.antt =====
-- A cursor converts to the value that the blob holds at it, if the fuel covers the value's depth.
use arbordb.Common.{
  ℕ, zero, suc, ◌+◌, ◌^◌, ◌≤◌, ◌<◌, ◌≡◌, refl, sym, ap, ◌∙◌, List, [], ◌∷◌, some, length, arith, ok,
}
use arbordb.Codec.Archived.Write.{node_tag}
use arbordb.Codec.Archived.Node.{
  ArchivedNode, node_at, entries, read_entries, entry_name, read_items, insert_all, to_value,
}
use arbordb.Codec.Archived.Repr.{Repr, ReprEntries}
use arbordb.Codec.Archived.Reads.{read_tag, read_count, kind_lem, len_lem, scalar_lem}
use arbordb.Codec.Archived.Children.{at-some, entry_at}
use arbordb.Data.Utf8.{Text, from_utf8_lem}
use arbordb.Data.Scalar.{Chrono}
use arbordb.Value.Depth.{depth, depth_items, depth_entries}
use arbordb.Value.Inserts.{
  extend, extend-end, extend_assoc, insert-Below, BelowAll, BelowAll-end, BelowAll-next,
}
use arbordb.Value.Keys.{get_entry}
use arbordb.Value.Tree.{
  Value, Items, Entries, leaf, list, node, nil, cons, end, entry, count_items, count_entries,
  get_item, insert, IsValid, AllValid, EntriesValid,
}

-- What `entries` reads: the names in order, each with a cursor at its value.
abbrev pub Listed : List ℕ → Entries → List (Text × ArchivedNode) → Type 0
Listed b end [] = Unit
Listed b end (read ∷ reads) = ⊥
Listed b (entry k v es) [] = ⊥
Listed b (entry k v es) ((name, n) ∷ reads) =
    (name ≡ k) × ((child : ℕ) × (n ≡ node_at b child) × Repr b child v) × Listed b es reads

module _ (chrono : Chrono) (b : List ℕ) (small : length b < 2 ^ 32) where
  read_entries_lem :
      (off table i : ℕ) (whole es : Entries)
      → ReprEntries b table whole
      → ((j : ℕ) (k : Text) (v : Value)
          → get_entry es j ≡ some (k, v)
          → get_entry whole (i + j) ≡ some (k, v))
      → EntriesValid chrono es
      → (reads : List (Text × ArchivedNode)) × (read_entries
            (node_at b off)
            table
            i
            (count_entries es)
          ≡ ok reads)
        × Listed b es reads
  unfolding read_entries
  read_entries_lem off table i whole end h within valid = ([], refl, tt)
  read_entries_lem off table i whole (entry k v es) h within valid =
      let (child, name, found_child, r) =
        entry_at b small off table whole i k v h (rw (sym add_zero) (within 0 k v refl)) in
      let (reads, e, listed) =
        read_entries_lem off table (i + 1) whole es h
          (λ j key x f. rw (sym (add_suc j)) (within (suc j) key x f)) valid.3 in
      (
        (k, node_at b child) ∷ reads,
        unfold entry_name in rw (name, from_utf8_lem k valid.0, found_child, e),
        (refl, (child, refl, r), listed),
      )
    where
      add_zero : i + 0 ≡ i
      add_zero = omega arith

      add_suc : (j : ℕ) → i + suc j ≡ i + 1 + j
      add_suc j = omega arith

  pub entries_lem :
      (off : ℕ) (es : Entries)
      → Repr b off (node es)
      → EntriesValid chrono es
      → (reads : List (Text × ArchivedNode)) × (entries (node_at b off) ≡ ok reads)
        × Listed b es reads
  unfolding entries
  entries_lem off es h valid =
      let count = read_count b small off node_tag (count_entries es) h.1 h.0.2 in
      let (reads, e, listed) =
        read_entries_lem off (off + 5) 0 es es h.2 (λ j k v f. rw (zero_add j) f) valid in
      (reads, rw (read_tag b small off (node es) h, count) e, listed)
    where
      zero_add : (j : ℕ) → 0 + j ≡ j
      zero_add j = omega arith

  zero_add : (j : ℕ) → 0 + j ≡ j
  zero_add j = omega arith

  add_zero : (i : ℕ) → i + 0 ≡ i
  add_zero i = omega arith

  add_suc : (i j : ℕ) → i + suc j ≡ i + 1 + j
  add_suc i j = omega arith

  depth-pos : (v : Value) → 1 ≤ depth v
  depth-pos (leaf s) = omega arith
  depth-pos (list xs) = omega arith
  depth-pos (node es) = omega arith

  mutual
    unfolding to_value

    pub to_value_lem :
        (fuel off : ℕ) (v : Value)
        → Repr b off v
        → IsValid chrono v
        → depth v ≤ fuel
        → to_value chrono fuel (node_at b off) ≡ ok v
    to_value_lem zero off v h valid deep = absurd (omega (arith, depth-pos v))
    to_value_lem (suc fuel) off (leaf s) h valid deep =
        rw (kind_lem b small off (leaf s) h, (scalar_lem b small chrono off s valid h).0)
    to_value_lem (suc fuel) off (list xs) h valid deep = rw (
      kind_lem b small off (list xs) h,
      len_lem b small off xs h,
      read_items_lem fuel off 0 xs xs h (λ j x e. rw (zero_add j) e) valid (omega arith),
    )
    to_value_lem (suc fuel) off (node es) h valid deep =
        let (reads, e, listed) = entries_lem off es h valid in
        rw (
          kind_lem b small off (node es) h,
          e,
          insert_all_lem fuel end es reads listed (BelowAll-end es) valid (omega arith),
        )

    read_items_lem :
        (fuel off i : ℕ) (whole xs : Items)
        → Repr b off (list whole)
        → ((j : ℕ) (x : Value) → get_item xs j ≡ some x → get_item whole (i + j) ≡ some x)
        → AllValid chrono xs
        → depth_items xs ≤ fuel
        → read_items (to_value chrono fuel) (node_at b off) i (count_items xs) ≡ ok xs
    read_items_lem fuel off i whole nil h within valid deep = refl
    read_items_lem fuel off i whole (cons x xs) h within valid deep =
        let (child, e, r) =
          at-some b small off whole i x h (rw (sym (add_zero i)) (within 0 x refl)) in
        rw (
          e,
          to_value_lem fuel child x r valid.0 (omega arith),
          read_items_lem fuel off (i + 1) whole xs h
              (λ j y f. rw (sym (add_suc i j)) (within (suc j) y f)) valid.1 (omega arith),
        )

    insert_all_lem :
        (fuel : ℕ) (map es : Entries) (reads : List (Text × ArchivedNode))
        → Listed b es reads
        → BelowAll map es
        → EntriesValid chrono es
        → depth_entries es ≤ fuel
        → insert_all (to_value chrono fuel) reads map ≡ ok (extend map es)
    insert_all_lem fuel map end [] listed below valid deep = rw (extend-end map)
    insert_all_lem fuel map end (read ∷ reads) listed below valid deep = absurd listed
    insert_all_lem fuel map (entry k v es) [] listed below valid deep = absurd listed
    insert_all_lem fuel map (entry k v es) ((name, n) ∷ reads) (same, (child, here, r), listed)
          below valid deep =
        let value : to_value chrono fuel n ≡ ok v =
          ap (to_value chrono fuel) here ∙ to_value_lem fuel child v r valid.1 (omega arith) in
        let place : insert name v map ≡ extend map (entry k v end) =
          ap (λ j. insert j v map) same ∙ insert-Below k v map below in
        let rest =
          insert_all_lem fuel (extend map (entry k v end)) es reads listed
            (BelowAll-next map es k v below valid.2) valid.3 (omega arith) in
        rw (value, place, rest, extend_assoc map (entry k v end) es)
