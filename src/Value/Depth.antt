-- ===== src/Value/Depth.antt =====
-- The nesting of a value.
use Prim.Native.Nat.{max}
use arbordb.Common.{ℕ, suc}
use arbordb.Value.Tree.{Value, Items, Entries, leaf, list, node, nil, cons, end, entry}

abbrev mutual
  pub depth : Value → ℕ
  depth (leaf s) = 1
  depth (list xs) = suc (depth_items xs)
  depth (node es) = suc (depth_entries es)

  pub depth_items : Items → ℕ
  depth_items nil = 0
  depth_items (cons x xs) = max (depth x) (depth_items xs)

  pub depth_entries : Entries → ℕ
  depth_entries end = 0
  depth_entries (entry k v es) = max (depth v) (depth_entries es)
