-- ===== src/Codec/Archived/Depth.antt =====
-- A value is nested no deeper than its blob is long, so the fuel of `decode` is enough.
use arbordb.Common.{ℕ, ◌+◌, ◌≤◌, List, length, arith}
use arbordb.Codec.Archived.Write.{begin_blob, push_value, push_items, push_entries, encode}
use arbordb.Codec.Archived.Written.{push_list-grows, push_leaf-grows}
use arbordb.Codec.Archived.Objects.{push_object-grows}
use arbordb.Codec.Archived.Encode.{length-encode}
use arbordb.Value.Tree.{Value, Items, Entries, leaf, list, node, nil, cons, end, entry}
use arbordb.Value.Depth.{depth, depth_items, depth_entries}

mutual
  unfolding push_value

  push_value-depth : (v : Value) (buf : List ℕ) → length buf + depth v ≤ length (push_value v buf).1
  push_value-depth (leaf s) buf = push_leaf-grows buf s
  push_value-depth (list xs) buf =
      let (os, w) = push_items xs buf in
      omega (arith, push_items-depth xs buf, push_list-grows w os)
  push_value-depth (node es) buf =
      let (os, w) = push_entries es buf in
      omega (arith, push_entries-depth es buf, push_object-grows w os)

  push_items-depth :
      (xs : Items) (buf : List ℕ) → length buf + depth_items xs ≤ length (push_items xs buf).1
  push_items-depth nil buf = omega arith
  push_items-depth (cons x xs) buf =
      let (o, w) = push_value x buf in omega (arith, push_value-depth x buf, push_items-depth xs w)

  push_entries-depth :
      (es : Entries) (buf : List ℕ) → length buf + depth_entries es ≤ length (push_entries es buf).1
  push_entries-depth end buf = omega arith
  push_entries-depth (entry k x es) buf =
      let (o, w) = push_value x buf in
      omega (arith, push_value-depth x buf, push_entries-depth es w)

pub depth-le-length : (v : Value) → depth v ≤ length (encode v)
depth-le-length v = omega (arith, push_value-depth v begin_blob, length-encode v)
