-- ===== src/Codec/Archived/Reads.antt =====
-- Each read of a cursor, at a vnode that holds a value.
use arbordb.Common.{
  ℕ, ◌+◌, ◌-◌, ◌^◌, ◌<◌, ◌≡◌, refl, sym, ap, ◌∙◌, List, [], ◌∷◌, ◌++◌, some, length, take, drop,
  take_all, length-drop, arith, ok,
}
use arbordb.Common.Be.{be}
use arbordb.Codec.Read.{read_u8, read_u32}
use arbordb.Codec.Read.At.{
  fits, At-behind, At, At-left, At-length, drop-At, read_u8-At, read_u32-At,
}
use arbordb.Codec.Reader.{new}
use arbordb.Codec.Reader.Reads.{Ahead-new}
use arbordb.Codec.Archived.Write.{leaf_tag, list_tag, node_tag}
use arbordb.Codec.Archived.Node.{
  NodeKind, object_kind, list_kind, leaf_kind, node_at, kind, decode_at, body_of, scalar,
  scalar_if_leaf, leaf_scalar_span, len,
}
use arbordb.Codec.Archived.Repr.{Repr}
use arbordb.Data.Scalar.{Chrono, Scalar}
use arbordb.Data.Scalar
use arbordb.Data.Scalar.RoundTrip.{encoded, Reads-decode-encoded}
use arbordb.Value.Tree.{Value, Items, leaf, list, node, count_items, count_entries}

-- The kind of a value's root.
abbrev pub kind_of_value : Value → NodeKind
kind_of_value (leaf s) = leaf_kind
kind_of_value (list xs) = list_kind
kind_of_value (node es) = object_kind

abbrev pub tag_of_value : Value → ℕ
tag_of_value (leaf s) = leaf_tag
tag_of_value (list xs) = list_tag
tag_of_value (node es) = node_tag

module _ (b : List ℕ) (small : length b < 2 ^ 32) where
  read_first : (off t : ℕ) (rest : List ℕ) → At b off (t ∷ rest) → read_u8 b off ≡ ok t
  read_first off t rest h = read_u8-At b off t (fits b small) (At-left b off (t ∷ []) rest h)

  pub read_tag : (off : ℕ) (v : Value) → Repr b off v → read_u8 b off ≡ ok (tag_of_value v)
  read_tag off (leaf s) h = read_first off 0 (encoded s) h.2
  read_tag off (list xs) h = read_first off 1 (be 4 (count_items xs)) h.0.2
  read_tag off (node es) h = read_first off 2 (be 4 (count_entries es)) h.0.2

  pub kind_lem : (off : ℕ) (v : Value) → Repr b off v → kind (node_at b off) ≡ ok (kind_of_value v)
  unfolding kind
  kind_lem off (leaf s) h = rw (read_tag off (leaf s) h)
  kind_lem off (list xs) h = rw (read_tag off (list xs) h)
  kind_lem off (node es) h = rw (read_tag off (node es) h)

  pub read_count : (off t n : ℕ) → n < 2 ^ 32 → At b off (t ∷ be 4 n) → read_u32 b (off + 1) ≡ ok n
  read_count off t n hn h =
      read_u32-At b (off + 1) n (fits b small) hn (At-behind b off 1 (t ∷ []) (be 4 n) refl h)

  pub len_lem :
      (off : ℕ) (xs : Items) → Repr b off (list xs) → len (node_at b off) ≡ ok (count_items xs)
  unfolding len
  len_lem off xs h = rw (read_tag off (list xs) h) (read_count off 1 (count_items xs) h.1 h.0.2)

  -- The bytes of a leaf's scalar, decoded where they stand.
  decode_at_lem :
      (chrono : Chrono) (off : ℕ) (s : Scalar)
      → Scalar.IsValid chrono s
      → Repr b off (leaf s)
      → (body : List ℕ) × (decode_at chrono (node_at b off)
          ≡ ok (s, record { buf = body; pos = length (encoded s) }))
  unfolding decode_at body_of
  decode_at_lem chrono off s valid h =
      let held = At-behind b off 1 (leaf_tag ∷ []) (encoded s) refl h.2 in
      let (rest, e) = drop-At b (off + 1) (encoded s) held in
      let ends = At-length b (off + 1) (encoded s) held in
      let body = encoded s ++ rest in
      let sized : length body ≡ length b - (off + 1) =
        ap length (sym e) ∙ length-drop (off + 1) b in
      let cut : take (length b - (off + 1)) (drop (off + 1) b) ≡ body =
        ap (λ (xs : List ℕ). take (length b - (off + 1)) xs) e
        ∙ ap (λ (n : ℕ). take n body) (sym sized)
        ∙ take_all body in
      let decoded =
        (Reads-decode-encoded chrono s valid).at (new body) rest (Ahead-new body (omega arith)) in
      (body, ground (arith, cut, ends, decoded, ap length e))

  pub scalar_lem :
      (chrono : Chrono) (off : ℕ) (s : Scalar)
      → Scalar.IsValid chrono s
      → Repr b off (leaf s)
      → (scalar chrono (node_at b off) ≡ ok s)
        × (scalar_if_leaf chrono (node_at b off) ≡ ok (some s))
        × (leaf_scalar_span chrono (node_at b off) ≡ ok (some (off + 1, length (encoded s))))
  scalar_lem chrono off s valid h =
      let t = read_tag off (leaf s) h in
      let (body, e) = decode_at_lem chrono off s valid h in
      (
        unfold scalar in rw (t, e),
        unfold scalar_if_leaf in rw (t, e),
        unfold leaf_scalar_span in rw (t, e),
      )
