-- ===== src/Codec/Search.antt =====
-- The binary search that dir.rs and archived.rs both run over a table of names.
use arbordb.Common.{
  ℕ, zero, suc, ◌+◌, ◌-◌, ◌/◌, ◌≤◌, ◌<◌, ◌≡◌, ◌≢◌, ◌⊎◌, ap, List, Option, none, some, true, false,
  Ordering, ltb, Bool-cases, inl, inr, arith, Result, ok, err, out_of_fuel,
}
use arbordb.Common.Lex.{lex, lex-eq, lex_refl, lex-reverse}

module _ {ℓ} {A : Type ℓ} (name_at : ℕ → Result (List ℕ)) (hit : ℕ → Result A)
    (needle : List ℕ) where
  abbrev pub found : Result A → Result (Option A)
  found (ok a) = ok (some a)
  found (err e) = err e

  -- `while lo < hi { … }` on fuel. `name_at` reads the name at an index, `hit` builds the result there.
  unfoldable pub search_loop : ℕ → ℕ → ℕ → Result (Option A)
  search_loop zero lo hi = err out_of_fuel
  search_loop (suc fuel) lo hi = elim (ltb lo hi) [
    | false ↦ ok none
    | true ↦
        let mid = lo + (hi - lo) / 2 in
        elim (name_at mid) [
          | err e ↦ err e
          | ok entry_name ↦ elim (lex entry_name needle) [
            | Ordering.lt ↦ search_loop fuel (mid + 1) hi
            | Ordering.gt ↦ search_loop fuel lo mid
            | Ordering.eq ↦ found (hit mid)
          ]
        ]
  ]

order : (a b : ℕ) → (a < b) ⊎ ((a ≡ b) ⊎ (b < a))
order a b = elim (Bool-cases (ltb a b)) [
  | inl less ↦ inl (ground arith)
  | inr not_less ↦ elim (Bool-cases (ltb b a)) [
    | inl more ↦ inr (inr (ground arith))
    | inr not_more ↦ inr (inl (ground arith))
  ]
]

-- A table of names in strict order, which `name_at` reads.
pub record Sorted (name_at : ℕ → Result (List ℕ)) (count : ℕ) (key : ℕ → List ℕ) : Type 0 where
  pub reads : (i : ℕ) → i < count → name_at i ≡ ok (key i)
  pub ascends : (i j : ℕ) → i < j → j < count → lex (key i) (key j) ≡ Ordering.lt

module _ {ℓ} {A : Type ℓ} {name_at : ℕ → Result (List ℕ)} (hit : ℕ → Result A) (needle : List ℕ)
    (count : ℕ) (key : ℕ → List ℕ) (table : Sorted name_at count key) where
  -- A name of the table is found where it stands.
  pub search_loop-found :
      (fuel lo hi i : ℕ)
      → hi - lo < fuel
      → lo ≤ i
      → i < hi
      → hi ≤ count
      → key i ≡ needle
      → search_loop name_at hit needle fuel lo hi ≡ found name_at hit needle (hit i)
  unfolding search_loop
  search_loop-found zero lo hi i f l h c e = absurd (omega arith)
  search_loop-found (suc fuel) lo hi i f l h c e =
      let mid = lo + (hi - lo) / 2 in
      let at_mid : name_at mid ≡ ok (key mid) = table.reads mid (omega arith) in
      elim (order mid i) [
        | inl less ↦ ground (
          arith,
          at_mid,
          ap (λ k. lex (key mid) k) e,
          table.ascends mid i less (omega arith),
          search_loop-found fuel (mid + 1) hi i,
        )
        | inr (inl same) ↦
            ground (arith, at_mid, same, ap key same, ap hit same, e, lex_refl needle)
        | inr (inr more) ↦ ground (
          arith,
          at_mid,
          ap (λ k. lex k (key mid)) e,
          table.ascends i mid more (omega arith),
          lex-reverse needle (key mid),
          search_loop-found fuel lo mid i,
        )
      ]

  -- A name that the table lacks is not found.
  pub search_loop-missing :
      (fuel lo hi : ℕ)
      → hi - lo < fuel
      → hi ≤ count
      → ((i : ℕ) → i < count → key i ≢ needle)
      → search_loop name_at hit needle fuel lo hi ≡ ok none
  unfolding search_loop
  search_loop-missing zero lo hi f c h = absurd (omega arith)
  search_loop-missing (suc fuel) lo hi f c h =
      let mid = lo + (hi - lo) / 2 in
      ground (
        arith,
        table.reads mid,
        h mid,
        lex-eq (key mid) needle,
        search_loop-missing fuel (mid + 1) hi,
        search_loop-missing fuel lo mid,
      )
