-- ===== src/Txn/Pending/Cascade.antt =====
-- A cascade removes a subtree of the pending entries.
use mathlib.Core.List.{Memᴰ}
use mathlib.Core.List.Memᴰ
use arbordb.Common.{
  ℕ, zero, suc, ◌≡◌, refl, sym, ap, subst, ◌∙◌, ◌⊎◌, inl, inr, List, [], ◌∷◌, Option, none, some,
  Result, ok, err, out_of_fuel,
}
use arbordb.Engine.Entry.{keys_in, map_some}
use arbordb.Key.{AKey}
use arbordb.Txn.Context.{Engine, Context, Action, ◌>>◌, pure, fail, for_each, remove_entry}
use arbordb.Txn.Context.Steps.{bind_succeeds, then_succeeds}
use arbordb.Txn.Pending.{pending, IsSound}
use arbordb.Txn.Pending.Keeps.{Same, Keeps-cascade_children}
use arbordb.Txn.Pending.Puts.{pending-remove_entry, remove_entry-IsSound}
use arbordb.Txn.Pending.Removes.{
  Under, Removes, Removes-trans, Removes-parent, Removes_weaker, Removes_nothing, subtree_gone,
}
use arbordb.Txn.Pending.Reads.{held, cascade_children_lem}
use arbordb.Txn.Pending.Walk.{pending-Same, IsSound-Same}
use arbordb.Txn.Reads.{cascade_children}
use arbordb.Txn.Tree.{cascade_delete}

held-none : (o : Option (List ℕ)) → held keys_in o ≡ ok none → o ≡ none
held-none none h = refl
held-none (some entry) h = absurd (go (keys_in entry) h)
  where
    go : (r : Result (List AKey)) → map_some r ≡ ok none → ⊥
    go (ok keys) h = cc
    go (err e) h = cc

module _ {g : Engine} where
  abbrev pub Law : (AKey → Action g (Unit {0})) → Type 0
  Law body =
      (k : AKey) (c : Context g)
      → IsSound c
      → (body k c).0 ≡ ok tt
      → IsSound (body k c).1 × Removes (pending c) (pending (body k c).1) (λ j. j ≡ k)

  for_each_lem :
      (body : AKey → Action g (Unit {0})) (keys : List AKey) (c : Context g)
      → Law body
      → IsSound c
      → (for_each body keys c).0 ≡ ok tt
      → IsSound (for_each body keys c).1
        × Removes (pending c) (pending (for_each body keys c).1) (λ j. Memᴰ j keys)
  unfolding for_each pure
  for_each_lem body [] c law sound h = (
    sound,
    record {
      gone = λ k mem. absurd (Memᴰ.not-nil mem);
      rest = λ j. inl refl;
      closed = λ m j keys e holds mem. absurd (clash keys (ap (held keys_in) (sym e) ∙ holds));
    },
  )
    where
      clash :
          (keys : List AKey) → ◌≡◌ {A = Result (Option (List AKey))} (ok none) (ok (some keys)) → ⊥
      clash keys e = cc
  for_each_lem body (k ∷ keys) c law sound h =
      let (c1, first, whole, last) = then_succeeds (body k) (for_each body keys) c tt h in
      let (sound1, gone1) =
        subst (λ c1. IsSound c1 × Removes (pending c) (pending c1) (λ j. j ≡ k))
          (ap (λ (r : Result (Unit {0}) × Context g). r.1) first)
          (law k c sound (ap (λ (r : Result (Unit {0}) × Context g). r.0) first)) in
      let (sound2, gone2) = for_each_lem body keys c1 law sound1 last in
      subst (λ c2. IsSound c2 × Removes (pending c) (pending c2) (λ j. Memᴰ j (k ∷ keys)))
        (ap (λ (r : Result (Unit {0}) × Context g). r.1) (sym whole))
        (
          sound2,
          Removes_weaker (pending c) _ _ (λ j. Memᴰ j (k ∷ keys))
              (λ j chosen. elim chosen [ inl e ↦ Memᴰ.head e | inr mem ↦ Memᴰ.tail mem ])
              (λ j mem. Memᴰ.cases_cons mem) (Removes-trans gone1 _ _ gone2),
        )

  pub cascade_delete-Law : (depth : ℕ) → Law (cascade_delete depth)
  unfolding cascade_delete fail pure
  cascade_delete-Law zero k c sound h = absurd (clash h)
    where
      clash : ◌≡◌ {A = Result (Unit {0})} (err out_of_fuel) (ok tt) → ⊥
      clash e = cc
  cascade_delete-Law (suc depth) k c sound h =
      let (found, c1, first, whole, last) = bind_succeeds (cascade_children k) body c tt h in
      let same = at_end c1 (ap (λ (r : Result (Option (List AKey)) × Context g). r.1) first) in
      subst (λ c2. IsSound c2 × Removes (pending c) (pending c2) (λ j. j ≡ k))
        (ap (λ (r : Result (Unit {0}) × Context g). r.1) (sym whole))
        (go found c1 same
          (cascade_children_lem c sound k found
            (ap (λ (r : Result (Option (List AKey)) × Context g). r.0) first))
          (λ keys.
            for_each_lem (cascade_delete depth) keys c1 (cascade_delete-Law depth)
              (IsSound-Same c c1 same sound))
          last)
    where
      body : Option (List AKey) → Action g (Unit {0})
      body found = elim found [
        | none ↦ pure tt
        | some children ↦ (for_each (cascade_delete depth) children >> remove_entry k)
      ]

      at_end : (c1 : Context g) → (cascade_children k c).1 ≡ c1 → Same c c1
      at_end c1 e = subst (Same c) e ((Keeps-cascade_children k).at c)

      go :
          (found : Option (List AKey)) (c1 : Context g)
          → Same c c1
          → held keys_in (pending c k) ≡ ok found
          → ((keys : List AKey)
              → (for_each (cascade_delete depth) keys c1).0 ≡ ok tt
              → IsSound (for_each (cascade_delete depth) keys c1).1
                × Removes
                    (pending c1)
                    (pending (for_each (cascade_delete depth) keys c1).1)
                    (λ j. Memᴰ j keys))
          → (body found c1).0 ≡ ok tt
          → IsSound (body found c1).1 × Removes (pending c) (pending (body found c1).1) (λ j. j ≡ k)
      go none c1 same e deleted h = (
        IsSound-Same c c1 same sound,
        Removes_nothing (pending c) (pending c1) k (pending-Same c c1 same)
            (held-none (pending c k) e),
      )
      go (some keys) c1 same e deleted h =
          let (c2, first, whole, last) =
            then_succeeds (for_each (cascade_delete depth) keys) (remove_entry k) c1 tt h in
          let (sound2, gone) =
            subst (λ c2. IsSound c2 × Removes (pending c1) (pending c2) (λ j. Memᴰ j keys))
              (ap (λ (r : Result (Unit {0}) × Context g). r.1) first)
              (deleted keys (ap (λ (r : Result (Unit {0}) × Context g). r.0) first)) in
          subst (λ c3. IsSound c3 × Removes (pending c) (pending c3) (λ j. j ≡ k))
            (ap (λ (r : Result (Unit {0}) × Context g). r.1) (sym whole))
            (
              remove_entry-IsSound k c2 sound2,
              Removes-parent
                  (subst (λ f. Removes f (pending c2) (λ j. Memᴰ j keys)) (pending-Same c c1 same)
                    gone)
                  (pending (remove_entry k c2).1) k keys (λ j mem. mem) (λ j mem. mem) e
                  (λ j. pending-remove_entry k c2 j sound2.consistent),
            )

  -- When a cascade succeeds, every a-node in the subtree has no pending entry any more.
  pub cascade_delete-Under :
      (depth : ℕ) (k : AKey) (c : Context g) (j : AKey)
      → IsSound c
      → (cascade_delete depth k c).0 ≡ ok tt
      → Under (pending c) k j
      → pending (cascade_delete depth k c).1 j ≡ none
  cascade_delete-Under depth k c j sound h under =
      let removed = (cascade_delete-Law depth k c sound h).1 in
      subtree_gone removed k j under (removed.gone k refl)

  -- When a cascade succeeds, each a-node keeps its pending entry, or is in the subtree and has none.
  pub cascade_delete_rest :
      (depth : ℕ) (k : AKey) (c : Context g) (j : AKey)
      → IsSound c
      → (cascade_delete depth k c).0 ≡ ok tt
      → (pending (cascade_delete depth k c).1 j ≡ pending c j)
        ⊎ (Under (pending c) k j × (pending (cascade_delete depth k c).1 j ≡ none))
  cascade_delete_rest depth k c j sound h = elim ((cascade_delete-Law depth k c sound h).1.rest j) [
    | inl same ↦ inl same
    | inr (m, e, under, absent) ↦ inr (subst (λ x. Under (pending c) x j) e under, absent)
  ]
