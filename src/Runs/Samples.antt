-- ===== src/Runs/Samples.antt =====
-- Data for the runs.
use arbordb.Common.{
  ℕ, zero, suc, ◌≡◌, ◌≢◌, List, [], ◌∷◌, Option, none, some, true, if◌then◌else◌, arith,
}
use arbordb.Common.Lex.{lex, lex-eq, lex_refl, is_eq}
use arbordb.Data.Scalar.{Chrono, Scalar}
use arbordb.Path.Segment.{Segment, VPath}
use arbordb.Value.Tree.{Value, leaf, list, node, nil, cons, end, entry}
use arbordb.Store.{Store}

-- A calendar that accepts everything.
abbrev pub any_chrono : Chrono
any_chrono = record {
  date_in_range = λ days. true;
  time_in_range = λ secs nanos. true;
  duration_of = λ secs nanos. some (secs, nanos);
}

-- { "a": 7, "b": [true, "hé"] }
abbrev pub sample_leaf : Scalar
sample_leaf = Scalar.str (0x68 ∷ 0xc3 ∷ 0xa9 ∷ [])

abbrev pub sample_value : Value
sample_value = node (
    entry (0x61 ∷ []) (leaf (Scalar.u8 7))
      (entry (0x62 ∷ []) (list (cons (leaf (Scalar.bool true)) (cons (leaf sample_leaf) nil))) end))

-- b[1]
abbrev pub sample_path : VPath
sample_path = record { segments = Segment.name (0x62 ∷ []) ∷ Segment.index 1 ∷ [] }

-- A table as a function from keys.
unfoldable pub put :
    List ℕ → Option (List ℕ) → (List ℕ → Option (List ℕ)) → List ℕ → Option (List ℕ)
put k v t j = if is_eq (lex k j) then v else t j

pub put-same : (k : List ℕ) (v : Option (List ℕ)) (t : List ℕ → Option (List ℕ)) → put k v t k ≡ v
unfolding put
put-same k v t = ground (arith, lex_refl k)

pub put-other :
    (k j : List ℕ) (v : Option (List ℕ)) (t : List ℕ → Option (List ℕ)) → k ≢ j → put k v t j ≡ t j
unfolding put
put-other k j v t ne = ground (arith, ne, lex-eq k j)

abbrev pub sample_store : Store (List ℕ)
sample_store = record {
  Table = List ℕ → Option (List ℕ);
  get = λ t k. t k;
  insert = λ k v t. put k (some v) t;
  remove = λ k t. put k none t;
  get-insert_same = λ t k v. put-same k (some v) t;
  get-insert_other = λ t k j v ne. put-other k j (some v) t ne;
  get-remove_same = λ t k. put-same k none t;
  get-remove_other = λ t k j ne. put-other k j none t ne;
}

abbrev pub zeros : ℕ → List ℕ
zeros zero = []
zeros (suc n) = 0 ∷ zeros n

abbrev pub empty_table : List ℕ → Option (List ℕ)
empty_table key = none
