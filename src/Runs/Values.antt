-- ===== src/Runs/Values.antt =====
-- Setting a value at a path.
use arbordb.Common.{ℕ, ◌≡◌, ◌≢◌, ◌⊎◌, ◌↔◌, inl, inr, refl, [], ◌∷◌, none, some, true, false, arith}
use arbordb.Data.Scalar
use arbordb.Path.Segment.{Segment, VPath}
use arbordb.Value.Tree.{Value, leaf}
use arbordb.Value.Access.{subtree}
use arbordb.Value.Set.{set_value}
use arbordb.Value.Set.Laws.{set_value-subtree}
use arbordb.Value.Set.Accepts.{Accepts, set_value-Accepts}
use arbordb.Value.Set.Frame.{set_value-Diverge}
use arbordb.Value.Edit.{remove_value, split_last}
use arbordb.Value.Edit.Gone.{remove_value-subtree}
use arbordb.Runs.Samples.{any_chrono, sample_value, sample_path}
use arbordb.Runs.Blobs.{sample_value-IsValid}

abbrev three : Value
three = leaf (Scalar.u8 3)

-- b[2], the first free place of the list
abbrev next_path : VPath
next_path = record { segments = Segment.name (0x62 ∷ []) ∷ Segment.index 2 ∷ [] }

set_value-subtree_example :
    ((set_value sample_value next_path three).1 ≡ true)
      × (subtree (set_value sample_value next_path three).0 next_path ≡ some three)
    ⊎ ((set_value sample_value next_path three).1 ≡ false)
      × ((set_value sample_value next_path three).0 ≡ sample_value)
set_value-subtree_example = set_value-subtree sample_value three next_path

-- b[2] is behind the two items of b.
set_value-Accepts_example :
    ((set_value sample_value next_path three).1 ≡ true) ↔ Accepts sample_value next_path.segments
set_value-Accepts_example = set_value-Accepts sample_value three next_path

set_value-Diverge_example :
    subtree (set_value sample_value next_path three).0 sample_path
    ≡ subtree sample_value sample_path
set_value-Diverge_example =
    set_value-Diverge any_chrono sample_value three next_path sample_path
      (inr (refl, inl two_not_one)) sample_value-IsValid
  where
    two_not_one : ◌≢◌ {A = ℕ} 2 1
    two_not_one e = omega arith

remove_value-subtree_example :
    (((remove_value sample_value (record { segments = Segment.name (0x62 ∷ []) ∷ [] })).1 ≡ true)
      × (subtree
            (remove_value sample_value (record { segments = Segment.name (0x62 ∷ []) ∷ [] })).0
            (record { segments = Segment.name (0x62 ∷ []) ∷ [] })
          ≡ none))
    ⊎ (((remove_value sample_value (record { segments = Segment.name (0x62 ∷ []) ∷ [] })).1 ≡ false)
        × ((remove_value sample_value (record { segments = Segment.name (0x62 ∷ []) ∷ [] })).0
            ≡ sample_value))
unfolding split_last
remove_value-subtree_example =
    remove_value-subtree any_chrono sample_value (Segment.name (0x62 ∷ [])) [] (0x62 ∷ [])
      sample_value-IsValid refl
