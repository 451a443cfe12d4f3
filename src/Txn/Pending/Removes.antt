-- ===== src/Txn/Pending/Removes.antt =====
-- The removal of subtrees, as a relation between maps from a-nodes to entries.
use mathlib.Core.List.{Memᴰ}
use arbordb.Common.{
  ℕ, zero, suc, ◌≡◌, refl, sym, ap, subst, ◌∙◌, ◌⊎◌, inl, inr, List, Option, none, some, Bool-cases,
  true, false, Result, ok, ◌==◌, if◌then◌else◌, arith,
}
use arbordb.Engine.Entry.{keys_in}
use arbordb.Key.{AKey}
use arbordb.Txn.Pending.Reads.{held}

-- An a-node's entry lists children.
abbrev pub Holds : Option (List ℕ) → List AKey → Type 0
Holds entry keys = held keys_in entry ≡ ok (some keys)

-- What stands in the subtree of an a-node.
pub data Under (e : AKey → Option (List ℕ)) : AKey → AKey → Type 0 where
  itself : (k : AKey) → Under e k k
  below :
      (k m j : AKey) (keys : List AKey) → Holds (e k) keys → Memᴰ m keys → Under e m j → Under e k j

-- From one state to another, the subtrees of a-nodes are removed and all else remains.
pub record Removes (from to : AKey → Option (List ℕ)) (chosen : AKey → Type 0) : Type 0 where
  pub gone : (k : AKey) → chosen k → to k ≡ none
  pub rest : (j : AKey) → (to j ≡ from j) ⊎ ((k : AKey) × chosen k × Under from k j × (to j ≡ none))
  pub closed :
      (m j : AKey) (keys : List AKey)
      → to m ≡ none
      → Holds (from m) keys
      → Memᴰ j keys
      → to j ≡ none

module _ {from mid : AKey → Option (List ℕ)} {A : AKey → Type 0} (first : Removes from mid A) where
  -- What lists children has not been removed.
  Holds-before : (k : AKey) (keys : List AKey) → Holds (mid k) keys → Holds (from k) keys
  Holds-before k keys h = elim (first.rest k) [
    | inl same ↦ subst (λ o. Holds o keys) same h
    | inr (m, chosen, under, absent) ↦ absurd (clash (ap (held keys_in) (sym absent) ∙ h))
  ]
    where
      clash : ◌≡◌ {A = Result (Option (List AKey))} (ok none) (ok (some keys)) → ⊥
      clash e = cc

  pub Under-before : (k j : AKey) → Under mid k j → Under from k j
  Under-before k j (itself m) = itself m
  Under-before k j (below n m i keys h mem under) =
      below n m i keys (Holds-before n keys h) mem (Under-before m i under)

  pub absent_after :
      (to : AKey → Option (List ℕ)) (B : AKey → Type 0)
      → Removes mid to B
      → (k : AKey) → mid k ≡ none
      → to k ≡ none
  absent_after to B second k e = elim (second.rest k) [
    | inl same ↦ same ∙ e
    | inr (m, chosen, under, absent) ↦ absent
  ]

  pub Removes-trans :
      (to : AKey → Option (List ℕ)) (B : AKey → Type 0)
      → Removes mid to B
      → Removes from to (λ k. A k ⊎ B k)
  Removes-trans to B second = record {
    gone = λ k chosen. elim chosen [
      | inl a ↦ absent_after to B second k (first.gone k a)
      | inr b ↦ second.gone k b
    ];
    rest = λ j. elim (second.rest j) [
      | inr (k, b, under, absent) ↦ inr (k, inr b, Under-before k j under, absent)
      | inl same ↦ elim (first.rest j) [
        | inl e ↦ inl (same ∙ e)
        | inr (k, a, under, absent) ↦ inr (k, inl a, under, same ∙ absent)
      ]
    ];
    closed = λ m j keys e h mem. elim (first.rest m) [
      | inl same ↦ second.closed m j keys e (subst (λ o. Holds o keys) (sym same) h) mem
      | inr (k, a, under, absent) ↦ absent_after to B second j (first.closed m j keys absent h mem)
    ];
  }

  -- The removal of an a-node after its children.
  pub Removes-parent :
      (to : AKey → Option (List ℕ)) (k : AKey) (keys : List AKey)
      → ((j : AKey) → A j → Memᴰ j keys)
      → ((j : AKey) → Memᴰ j keys → A j)
      → Holds (from k) keys
      → ((j : AKey) → to j ≡ (if k == j then none else mid j))
      → Removes from to (λ j. j ≡ k)
  Removes-parent to k keys into back holds law = record {
    gone = λ j e. law j ∙ ground (arith, e);
    rest = λ j. elim (Bool-cases (k == j)) [
      | inl same ↦
          inr
            (k, refl, subst (Under from k) (equal j same) (itself k), law j ∙ ground (arith, same))
      | inr differ ↦ elim (first.rest j) [
        | inl e ↦ inl (other j differ ∙ e)
        | inr (m, a, under, absent) ↦
            inr (k, refl, below k m j keys holds (into m a) under, other j differ ∙ absent)
      ]
    ];
    closed = λ m j found e h mem. still j (elim (Bool-cases (k == m)) [
      | inl same ↦ first.gone j (
          back j (
            subst (Memᴰ j) (one found (subst (λ x. Holds (from x) found) (sym (equal m same)) h))
              mem))
      | inr differ ↦ first.closed m j found (sym (other m differ) ∙ e) h mem
    ]);
  }
    where
      equal : (j : AKey) → (k == j) ≡ true → k ≡ j
      equal j same = ground (arith, same)

      other : (j : AKey) → (k == j) ≡ false → to j ≡ mid j
      other j differ = law j ∙ ground (arith, differ)

      still : (j : AKey) → mid j ≡ none → to j ≡ none
      still j e = law j ∙ ground (arith, e)

      one : (found : List AKey) → Holds (from k) found → found ≡ keys
      one found h =
          let e : ◌≡◌ {A = Result (Option (List AKey))} (ok (some found)) (ok (some keys)) =
            sym h ∙ holds in
          cc

pub Removes_weaker :
    (from to : AKey → Option (List ℕ)) (A B : AKey → Type 0)
    → ((k : AKey) → A k → B k)
    → ((k : AKey) → B k → A k)
    → Removes from to A
    → Removes from to B
Removes_weaker from to A B there back h = record {
  gone = λ k b. h.gone k (back k b);
  rest = λ j. elim (h.rest j) [
    | inl e ↦ inl e
    | inr (k, a, under, absent) ↦ inr (k, there k a, under, absent)
  ];
  closed = h.closed;
}

pub Removes_nothing :
    (from to : AKey → Option (List ℕ)) (k : AKey)
    → to ≡ from
    → from k ≡ none
    → Removes from to (λ j. j ≡ k)
Removes_nothing from to k same absent = record {
  gone = λ j e. at j ∙ ap from e ∙ absent;
  rest = λ j. inl (at j);
  closed = λ m j keys e h mem. absurd (clash keys (ap (held keys_in) (sym (sym (at m) ∙ e)) ∙ h));
}
  where
    at : (j : AKey) → to j ≡ from j
    at j = ap (λ f. f j) same

    clash :
        (keys : List AKey) → ◌≡◌ {A = Result (Option (List AKey))} (ok none) (ok (some keys)) → ⊥
    clash keys e = cc

module _ {from to : AKey → Option (List ℕ)} {A : AKey → Type 0} (removed : Removes from to A) where
  pub subtree_gone : (k j : AKey) → Under from k j → to k ≡ none → to j ≡ none
  subtree_gone k j (itself m) e = e
  subtree_gone k j (below n m i keys h mem under) e =
      subtree_gone m i under (removed.closed n m keys e h mem)

-- The subtree of an a-node is no deeper than a number.
abbrev pub Within : (AKey → Option (List ℕ)) → ℕ → AKey → Type 0
Within e zero k = ⊥
Within e (suc depth) k =
    (keys : List AKey) (m : AKey) → Holds (e k) keys → Memᴰ m keys → Within e depth m

-- Every entry in the subtree of an a-node can be read.
abbrev pub Readable : (AKey → Option (List ℕ)) → AKey → Type 0
Readable e k = (j : AKey) → Under e k j → (r : Option (List AKey)) × (held keys_in (e j) ≡ ok r)

module _ {from to : AKey → Option (List ℕ)} {A : AKey → Type 0} (removed : Removes from to A) where
  pub Within-after : (depth : ℕ) (k : AKey) → Within from depth k → Within to depth k
  Within-after zero k within = within
  Within-after (suc depth) k within =
      λ keys m h mem. Within-after depth m (within keys m (Holds-before removed k keys h) mem)

  pub Readable-after : (k : AKey) → Readable from k → Readable to k
  Readable-after k readable = λ j under. elim (removed.rest j) [
    | inl same ↦
        let (r, e) = readable j (Under-before removed k j under) in (r, ap (held keys_in) same ∙ e)
    | inr (m, a, old, absent) ↦ (none, ap (held keys_in) absent)
  ]
