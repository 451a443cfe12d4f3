-- ===== src/Codec/Archived/Repr.antt =====
-- `Repr b off v`: the blob `b` holds the value `v` at the offset `off`, all of it behind the header.
use arbordb.Common.{ℕ, ◌+◌, ◌^◌, ◌≤◌, ◌<◌, List, ◌∷◌, ◌++◌, length}
use arbordb.Common.Be.{be}
use arbordb.Codec.Read.At.{At, At-append}
use arbordb.Data.Scalar.RoundTrip.{encoded}
use arbordb.Value.Tree.{
  Value, Items, Entries, leaf, list, node, nil, cons, end, entry, count_items, count_entries,
}

-- What is known of the place of any vnode.
abbrev pub Placed : List ℕ → ℕ → List ℕ → Type 0
Placed b off bytes = (5 ≤ off) × (off < 2 ^ 32) × At b off bytes

-- A list's table holds the offset of a vnode that satisfies `P`.
abbrev pub ReprItem : List ℕ → ℕ → (ℕ → Type 0) → Type 0
ReprItem b table P = (child : ℕ) × (5 ≤ table) × At b table (be 4 child) × P child

-- An object's table holds the record of a name and of a vnode that satisfies `P`.
abbrev pub ReprEntry : List ℕ → ℕ → List ℕ → (ℕ → Type 0) → Type 0
ReprEntry b table k P =
    (name_off : ℕ) × (child : ℕ) × (5 ≤ table)
    × At b table (be 4 name_off ++ (be 4 (length k) ++ be 4 child))
    × (length k < 2 ^ 32)
    × Placed b name_off k
    × P child

abbrev mutual
  pub Repr : List ℕ → ℕ → Value → Type 0
  Repr b off (leaf s) = Placed b off (0 ∷ encoded s)
  Repr b off (list xs) =
      Placed b off (1 ∷ be 4 (count_items xs))
      × (count_items xs < 2 ^ 32)
      × ReprItems b (off + 5) xs
  Repr b off (node es) =
      Placed b off (2 ∷ be 4 (count_entries es))
      × (count_entries es < 2 ^ 32)
      × ReprEntries b (off + 5) es

  pub ReprItems : List ℕ → ℕ → Items → Type 0
  ReprItems b table nil = Unit
  ReprItems b table (cons x xs) =
      ReprItem b table (λ child. Repr b child x) × ReprItems b (table + 4) xs

  pub ReprEntries : List ℕ → ℕ → Entries → Type 0
  ReprEntries b table end = Unit
  ReprEntries b table (entry k v es) =
      ReprEntry b table k (λ child. Repr b child v) × ReprEntries b (table + 12) es

-- A vnode's offset fits its field.
pub Repr-lt : (b : List ℕ) (off : ℕ) (v : Value) → Repr b off v → off < 2 ^ 32
Repr-lt b off (leaf s) h = h.1
Repr-lt b off (list xs) h = h.0.1
Repr-lt b off (node es) h = h.0.1

-- A blob that keeps what another holds behind the header keeps its values.
module _ (b b' : List ℕ)
    (keep : (off : ℕ) (ys : List ℕ) → 5 ≤ off → At b off ys → At b' off ys) where
  Placed-keep : (off : ℕ) (ys : List ℕ) → Placed b off ys → Placed b' off ys
  Placed-keep off ys h = (h.0, h.1, keep off ys h.0 h.2)

  mutual
    pub Repr-keep : (off : ℕ) (v : Value) → Repr b off v → Repr b' off v
    Repr-keep off (leaf s) h = Placed-keep off (0 ∷ encoded s) h
    Repr-keep off (list xs) h =
        (Placed-keep off (1 ∷ be 4 (count_items xs)) h.0, h.1, ReprItems-keep (off + 5) xs h.2)
    Repr-keep off (node es) h =
        (Placed-keep off (2 ∷ be 4 (count_entries es)) h.0, h.1, ReprEntries-keep (off + 5) es h.2)

    pub ReprItems-keep : (table : ℕ) (xs : Items) → ReprItems b table xs → ReprItems b' table xs
    ReprItems-keep table nil h = tt
    ReprItems-keep table (cons x xs) ((child, lo, at, r), rest) = (
      (child, lo, keep table (be 4 child) lo at, Repr-keep child x r),
      ReprItems-keep (table + 4) xs rest,
    )

    pub ReprEntries-keep :
        (table : ℕ) (es : Entries) → ReprEntries b table es → ReprEntries b' table es
    ReprEntries-keep table end h = tt
    ReprEntries-keep table (entry k v es) ((name_off, child, lo, at, small, place, r), rest) = (
      (
        name_off,
        child,
        lo,
        keep table (be 4 name_off ++ (be 4 (length k) ++ be 4 child)) lo at,
        small,
        Placed-keep name_off k place,
        Repr-keep child v r,
      ),
      ReprEntries-keep (table + 12) es rest,
    )

pub Repr-append : (b more : List ℕ) (off : ℕ) (v : Value) → Repr b off v → Repr (b ++ more) off v
Repr-append b more = Repr-keep b (b ++ more) (λ off ys lo at. At-append b more off ys at)
