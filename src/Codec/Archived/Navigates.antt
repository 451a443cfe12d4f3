-- ===== src/Codec/Archived/Navigates.antt =====
-- Navigation in a blob ends where the same path ends in the value that the blob holds.
use arbordb.Common.{ℕ, ◌^◌, ◌<◌, ◌≡◌, refl, List, [], ◌∷◌, Option, none, some, length, Result, ok}
use arbordb.Codec.Archived.Node.{ArchivedNode, node_at, at, get, step, navigate_segments}
use arbordb.Codec.Archived.Repr.{Repr}
use arbordb.Codec.Archived.Reads.{read_tag}
use arbordb.Codec.Archived.Children.{at-some, at-none, get-some, get-none}
use arbordb.Data.Utf8.{Text}
use arbordb.Data.Scalar.{Chrono}
use arbordb.Path.Segment.{Segment}
use arbordb.Value.Tree.{Value, leaf, list, node, get_item, lookup, IsValid}
use arbordb.Value.Access
use arbordb.Value.Access.{child_at, child_at-IsValid, subtree_segments}

-- A cursor at the value, or none where there is no value.
abbrev pub Lands : List ℕ → Option Value → Result (Option ArchivedNode) → Type 0
Lands b none reached = reached ≡ ok none
Lands b (some v) reached = (off : ℕ) × (reached ≡ ok (some (node_at b off))) × Repr b off v

-- From what is reached in either case.
Lands-intro :
    (b : List ℕ) (o : Option Value) (reached : Result (Option ArchivedNode))
    → (o ≡ none → reached ≡ ok none)
    → ((x : Value) → o ≡ some x → (off : ℕ) × (reached ≡ ok (some (node_at b off))) × Repr b off x)
    → Lands b o reached
Lands-intro b none reached missing there = missing refl
Lands-intro b (some x) reached missing there = there x refl

module _ (chrono : Chrono) (b : List ℕ) (small : length b < 2 ^ 32) where
  at_lem :
      (off : ℕ) (v : Value) (i : ℕ) → Repr b off v → Lands b (Access.at v i) (at (node_at b off) i)
  unfolding Access.at
  at_lem off (leaf s) i h = unfold at in rw (read_tag b small off (leaf s) h)
  at_lem off (node es) i h = unfold at in rw (read_tag b small off (node es) h)
  at_lem off (list xs) i h =
      Lands-intro b (get_item xs i) (at (node_at b off) i) (at-none b small off xs i h)
        (λ x. at-some b small off xs i x h)

  get_lem :
      (off : ℕ) (v : Value) (k : Text)
      → Repr b off v
      → IsValid chrono v
      → Lands b (Access.get v k) (get (node_at b off) k)
  unfolding Access.get
  get_lem off (leaf s) k h valid = unfold get in rw (read_tag b small off (leaf s) h)
  get_lem off (list xs) k h valid = unfold get in rw (read_tag b small off (list xs) h)
  get_lem off (node es) k h valid =
      Lands-intro b (lookup k es) (get (node_at b off) k) (get-none b small chrono off es k h valid)
        (λ x. get-some b small chrono off es k x h valid)

  step_lem :
      (off : ℕ) (v : Value) (segment : Segment)
      → Repr b off v
      → IsValid chrono v
      → Lands b (child_at v segment) (step (node_at b off) segment)
  unfolding step child_at
  step_lem off v (Segment.name k) h valid = get_lem off v k h valid
  step_lem off v (Segment.index i) h valid = at_lem off v i h

  -- The rest of the way, from what one step reaches.
  go_on :
      (segment : Segment) (segments : List Segment) (off : ℕ) (v : Value)
      → IsValid chrono v
      → ((off : ℕ) (x : Value)
          → Repr b off x
          → IsValid chrono x
          → Lands b (subtree_segments x segments) (navigate_segments (node_at b off) segments))
      → (o : Option Value) → child_at v segment ≡ o
      → Lands b o (step (node_at b off) segment)
      → Lands b
          (subtree_segments v (segment ∷ segments))
          (navigate_segments (node_at b off) (segment ∷ segments))
  unfolding navigate_segments subtree_segments
  go_on segment segments off v valid next none e lands =
      rw (subtree_segments, navigate_segments, e, lands) refl
  go_on segment segments off v valid next (some x) e (child, reached, r) =
      rw (subtree_segments, navigate_segments, e, reached)
        (next child x r (child_at-IsValid chrono v segment x valid e))

  pub navigate_segments_lem :
      (segments : List Segment) (off : ℕ) (v : Value)
      → Repr b off v
      → IsValid chrono v
      → Lands b (subtree_segments v segments) (navigate_segments (node_at b off) segments)
  unfolding navigate_segments subtree_segments
  navigate_segments_lem [] off v h valid = (off, refl, h)
  navigate_segments_lem (segment ∷ segments) off v h valid =
      go_on segment segments off v valid (navigate_segments_lem segments) (child_at v segment) refl
        (step_lem off v segment h valid)
