-- ===== src/Store.antt =====
-- The engine's tables, as the code uses them: redb's `get`, `insert` and `remove` on tables from keys to
-- bytes.
use arbordb.Common.{ℕ, ◌≡◌, ◌≢◌, List, Option, none, some}

-- What redb documents of a table that one transaction writes.
pub record Store (K : Type 0) : Type 1 where
  pub Table : Type 0
  pub get : Table → K → Option (List ℕ)
  pub insert : K → List ℕ → Table → Table
  pub remove : K → Table → Table
  pub get-insert_same : (t : Table) (k : K) (v : List ℕ) → get (insert k v t) k ≡ some v
  pub get-insert_other : (t : Table) (k j : K) (v : List ℕ) → k ≢ j → get (insert k v t) j ≡ get t j
  pub get-remove_same : (t : Table) (k : K) → get (remove k t) k ≡ none
  pub get-remove_other : (t : Table) (k j : K) → k ≢ j → get (remove k t) j ≡ get t j
