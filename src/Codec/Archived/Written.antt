-- ===== src/Codec/Archived/Written.antt =====
-- What the writers leave in the buffer: `push_value` appends, and the blob then holds the value at
-- the offset that it returns.
use arbordb.Common.{
  ℕ, suc, ◌+◌, ◌*◌, ◌%◌, ◌^◌, ◌≤◌, ◌<◌, ◌≡◌, refl, sym, ap, subst, ◌∙◌, List, [], ◌∷◌, ◌++◌,
  append_assoc, append-nil, length, length-append, arith,
}
use arbordb.Common.Be.{small_mod, be, length-be}
use arbordb.Codec.Putters.{put_u32}
use arbordb.Codec.Read.At.{At-behind, At, At-end, At-left}
use arbordb.Codec.Reader.Reads.{concat_map}
use arbordb.Codec.Archived.Write.{push_leaf, put_offsets, push_list}
use arbordb.Codec.Archived.Repr.{Repr, ReprItems, Repr-append}
use arbordb.Data.Scalar.{Scalar}
use arbordb.Data.Scalar.RoundTrip.{encoded, encode-append}
use arbordb.Value.Tree.{Value, Items, leaf, list, nil, cons, count_items}

-- The buffer `w` extends `buf`, and `Holds` is true of it if it is below 4 GiB.
pub record Pushed (buf w : List ℕ) (Holds : Type 0) : Type 0 where
  pub more : List ℕ
  pub grows : w ≡ buf ++ more
  pub holds : length w < 2 ^ 32 → Holds

-- The children of a list, each at its offset.
abbrev pub Offsets : List ℕ → List ℕ → Items → Type 0
Offsets b [] nil = Unit
Offsets b (o ∷ os) (cons x xs) = Repr b o x × Offsets b os xs
Offsets b [] (cons x xs) = ⊥
Offsets b (o ∷ os) nil = ⊥

Offsets-append : (b more os : List ℕ) (xs : Items) → Offsets b os xs → Offsets (b ++ more) os xs
Offsets-append b more [] nil h = tt
Offsets-append b more (o ∷ os) (cons x xs) h =
    (Repr-append b more o x h.0, Offsets-append b more os xs h.1)
Offsets-append b more [] (cons x xs) h = absurd h
Offsets-append b more (o ∷ os) nil h = absurd h

Offsets-count : (b os : List ℕ) (xs : Items) → Offsets b os xs → length os ≡ count_items xs
Offsets-count b [] nil h = refl
Offsets-count b (o ∷ os) (cons x xs) h = ap suc (Offsets-count b os xs h.1)
Offsets-count b [] (cons x xs) h = absurd h
Offsets-count b (o ∷ os) nil h = absurd h

put_offsets_lem : (buf os : List ℕ) → put_offsets buf os ≡ buf ++ concat_map (be 4) os
unfolding put_offsets
put_offsets_lem buf [] = sym (append-nil buf)
put_offsets_lem buf (o ∷ os) =
    put_offsets_lem (put_u32 buf o) os
    ∙ (unfold put_u32 in append_assoc buf (be 4 o) (concat_map (be 4) os))

length-offsets : (os : List ℕ) → length (concat_map (be 4) os) ≡ 4 * length os
length-offsets [] = omega arith
length-offsets (o ∷ os) =
    omega (arith, length-append (be 4 o) (concat_map (be 4) os), length-be 4 o, length-offsets os)

Offsets-table :
    (b : List ℕ) (table : ℕ) (os : List ℕ) (xs : Items)
    → 5 ≤ table
    → At b table (concat_map (be 4) os)
    → Offsets b os xs
    → ReprItems b table xs
Offsets-table b table [] nil lo at h = tt
Offsets-table b table (o ∷ os) (cons x xs) lo at h = (
  (o, lo, At-left b table (be 4 o) (concat_map (be 4) os) at, h.0),
  Offsets-table b (table + 4) os xs (omega arith)
      (At-behind b table 4 (be 4 o) (concat_map (be 4) os) (length-be 4 o) at) h.1,
)
Offsets-table b table [] (cons x xs) lo at h = absurd h
Offsets-table b table (o ∷ os) nil lo at h = absurd h

push_list_lem :
    (buf os : List ℕ)
    → (push_list buf os).1 ≡ buf ++ (1 ∷ be 4 (length os % 2 ^ 32) ++ concat_map (be 4) os)
unfolding push_list
push_list_lem buf os =
    put_offsets_lem (put_u32 (buf ++ 1 ∷ []) (length os % 2 ^ 32)) os
    ∙ (unfold put_u32 in simp append_assoc)

pub Repr-at :
    (b b' : List ℕ) (off off' : ℕ) (v : Value) → b ≡ b' → off ≡ off' → Repr b' off' v → Repr b off v
Repr-at b b' off off' v e f h =
    subst (λ w. Repr w off v) (sym e) (subst (λ o. Repr b' o v) (sym f) h)

-- A vnode of a tag, a count and a table, appended to the buffer.
abbrev pub vnode : ℕ → ℕ → List ℕ → List ℕ
vnode tag count table = (tag ∷ be 4 count) ++ table

pub length-vnode :
    (tag count : ℕ) (table : List ℕ) → length (vnode tag count table) ≡ 5 + length table
length-vnode tag count table =
    omega (arith, length-append (tag ∷ be 4 count) table, length-be 4 count)

pub At-vnode :
    (buf : List ℕ) (tag count : ℕ) (table : List ℕ)
    → At (buf ++ vnode tag count table) (length buf) (tag ∷ be 4 count)
      × At (buf ++ vnode tag count table) (length buf + 5) table
At-vnode buf tag count table =
    let here = At-end buf (vnode tag count table) in
    (
      At-left (buf ++ vnode tag count table) (length buf) (tag ∷ be 4 count) table here,
      At-behind (buf ++ vnode tag count table) (length buf) 5 (tag ∷ be 4 count) table
          (ap suc (length-be 4 count)) here,
    )

list_at :
    (buf os : List ℕ) (xs : Items)
    → 5 ≤ length buf
    → length (buf ++ vnode 1 (length os % 2 ^ 32) (concat_map (be 4) os)) < 2 ^ 32
    → (length buf < 2 ^ 32 → Offsets buf os xs)
    → Repr (buf ++ vnode 1 (length os % 2 ^ 32) (concat_map (be 4) os)) (length buf) (list xs)
list_at buf os xs lo small h =
    let table = concat_map (be 4) os in
    let tail = vnode 1 (length os % 2 ^ 32) table in
    let total = length-append buf tail in
    let sizes = length-vnode 1 (length os % 2 ^ 32) table in
    let per_child = length-offsets os in
    let offs = h (omega arith) in
    let counted = Offsets-count buf os xs offs in
    let (tagged, behind) = At-vnode buf 1 (length os % 2 ^ 32) table in
    (
      (
        lo,
        omega arith,
        subst (λ n. At (buf ++ tail) (length buf) (1 ∷ be 4 n))
            (small_mod (length os) (omega arith) ∙ counted) tagged,
      ),
      omega arith,
      Offsets-table (buf ++ tail) (length buf + 5) os xs (omega arith) behind
          (Offsets-append buf tail os xs offs),
    )

-- From children at their offsets to a list vnode over them.
pub push_list-Repr :
    (buf os : List ℕ) (xs : Items)
    → 5 ≤ length buf
    → (length buf < 2 ^ 32 → Offsets buf os xs)
    → Pushed buf (push_list buf os).1 (Repr (push_list buf os).1 (push_list buf os).0 (list xs))
push_list-Repr buf os xs lo h =
    let tail = vnode 1 (length os % 2 ^ 32) (concat_map (be 4) os) in
    let e = push_list_lem buf os in
    record {
      more = tail;
      grows = e;
      holds = λ small.
          Repr-at (push_list buf os).1 (buf ++ tail) (push_list buf os).0 (length buf) (list xs) e
            (offset_small buf os (omega (arith, ap length e, length-append buf tail)))
            (list_at buf os xs lo (subst (λ w. length w < 2 ^ 32) e small) h);
    }
  where
    offset_small : (buf os : List ℕ) → length buf < 2 ^ 32 → (push_list buf os).0 ≡ length buf
    offset_small buf os h = unfold push_list in small_mod (length buf) h

pub push_leaf-Repr :
    (buf : List ℕ) (s : Scalar)
    → 5 ≤ length buf
    → Pushed buf (push_leaf buf s).1 (Repr (push_leaf buf s).1 (push_leaf buf s).0 (leaf s))
push_leaf-Repr buf s lo = record {
  more = 0 ∷ encoded s;
  grows = written;
  holds = λ small.
      let fits : length buf < 2 ^ 32 =
        omega (arith, ap length written, length-append buf (0 ∷ encoded s)) in
      Repr-at (push_leaf buf s).1 (buf ++ 0 ∷ encoded s) (push_leaf buf s).0 (length buf) (leaf s)
        written (unfold push_leaf in small_mod (length buf) fits)
        (lo, fits, At-end buf (0 ∷ encoded s));
}
  where
    written : (push_leaf buf s).1 ≡ buf ++ 0 ∷ encoded s
    written =
        unfold push_leaf in encode-append s (buf ++ 0 ∷ []) ∙ append_assoc buf (0 ∷ []) (encoded s)

pub push_leaf-grows : (buf : List ℕ) (s : Scalar) → length buf + 1 ≤ length (push_leaf buf s).1
unfolding push_leaf
push_leaf-grows buf s = omega (
  arith,
  ap length (encode-append s (buf ++ 0 ∷ [])),
  length-append (buf ++ 0 ∷ []) (encoded s),
  length-append buf (0 ∷ []),
)

pub push_list-grows : (buf os : List ℕ) → length buf + 1 ≤ length (push_list buf os).1
push_list-grows buf os =
    let table = concat_map (be 4) os in
    omega (
      arith,
      ap length (push_list_lem buf os),
      length-append buf (vnode 1 (length os % 2 ^ 32) table),
      length-vnode 1 (length os % 2 ^ 32) table,
    )
