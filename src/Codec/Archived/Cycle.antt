-- ===== src/Codec/Archived/Cycle.antt =====
-- A list vnode that is its own first element.
use arbordb.Common.{ℕ, zero, suc, ◌≡◌, refl, some, ok, err, out_of_fuel}
use arbordb.Codec.Archived.Node.{ArchivedNode, list_kind, kind, len, at, to_value}
use arbordb.Data.Scalar.{Chrono}

-- Where a cursor stands at a list whose first element is that list itself, no depth of recursion is
-- enough to convert it: the conversion ends neither with a value nor with `Corrupt`.
pub to_value-cycle :
    (chrono : Chrono) (n : ArchivedNode) (rest fuel : ℕ)
    → kind n ≡ ok list_kind
    → len n ≡ ok (suc rest)
    → at n 0 ≡ ok (some n)
    → to_value chrono fuel n ≡ err out_of_fuel
unfolding to_value
to_value-cycle chrono n rest zero k l a = refl
to_value-cycle chrono n rest (suc fuel) k l a =
    rw (to_value, k, l, a, to_value-cycle chrono n rest fuel k l a) refl
