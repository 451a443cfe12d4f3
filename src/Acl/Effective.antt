-- ===== src/Acl/Effective.antt =====
-- Who gets which grade.
use arbordb.Common.{
  ℕ, ◌≤◌, ◌≡◌, ◌≢◌, refl, ap, ◌⊎◌, inl, inr, List, [], ◌∷◌, Option, none, some, ◌==◌, ltb, arith,
  subst, sym, ◌∙◌, Bool-cases,
}
use mathlib.Core.Option.{some-injective}
use arbordb.Common.Numbered
use arbordb.Acl.{Acl, Groups, effective_rights, shared, max_rights}
use arbordb.Acl.Grades.{Rights, rank}

-- `gid` is among the caller's groups.
abbrev pub Member : ℕ → List ℕ → Type 0
Member gid [] = ⊥
Member gid (g ∷ gids) = (gid ≡ g) ⊎ Member gid gids

-- `grade` is the strongest that any of the caller's groups has.
pub record Strongest (group : Groups) (gids : List ℕ) (grade : Rights) : Type 0 where
  pub granted : (gid : ℕ) × Member gid gids × (Numbered.get group gid ≡ some grade)
  pub dominates :
      (gid : ℕ) (rights : Rights)
      → Member gid gids
      → Numbered.get group gid ≡ some rights
      → rank rights ≤ rank grade

-- None of the caller's groups is granted anything.
abbrev pub NoneShared : Groups → List ℕ → Type 0
NoneShared group gids = (gid : ℕ) → Member gid gids → Numbered.get group gid ≡ none

equal_rank : (a b : Rights) → some a ≡ some b → rank b ≤ rank a
equal_rank a b e = subst (λ r. rank r ≤ rank a) (some-injective a b e) (omega arith)

max_shared_lem :
    (group : Groups) (gids : List ℕ)
    → ((max_rights (shared group gids) ≡ none) × NoneShared group gids)
      ⊎ ((grade : Rights) × (max_rights (shared group gids) ≡ some grade)
          × Strongest group gids grade)
unfolding max_rights shared
max_shared_lem group [] = inl (refl, λ gid m. absurd m)
max_shared_lem group (g ∷ gids) = go (Numbered.get group g) refl (max_shared_lem group gids)
  where
    go :
        (o : Option Rights)
        → Numbered.get group g ≡ o
        → ((max_rights (shared group gids) ≡ none) × NoneShared group gids)
          ⊎ ((grade : Rights) × (max_rights (shared group gids) ≡ some grade)
              × Strongest group gids grade)
        → ((max_rights (shared group (g ∷ gids)) ≡ none) × NoneShared group (g ∷ gids))
          ⊎ ((grade : Rights) × (max_rights (shared group (g ∷ gids)) ≡ some grade)
              × Strongest group (g ∷ gids) grade)
    go none e (inl (m, nothing)) = inl (
      ground (arith, e, m),
      λ gid member. elim member [
        | inl same ↦ ap (Numbered.get group) same ∙ e
        | inr rest ↦ nothing gid rest
      ],
    )
    go none e (inr (grade, m, strongest)) = inr (
      grade,
      ground (arith, e, m),
      record {
        granted = (strongest.granted.0, inr strongest.granted.1, strongest.granted.2);
        dominates = λ gid rights member held. elim member [
          | inl same ↦ cc
          | inr rest ↦ strongest.dominates gid rights rest held
        ];
      },
    )
    go (some rights) e (inl (m, nothing)) = inr (
      rights,
      ground (arith, e, m),
      record {
        granted = (g, inl refl, e);
        dominates = λ gid other member held. elim member [
          | inl same ↦ equal_rank rights other (sym e ∙ ap (Numbered.get group) (sym same) ∙ held)
          | inr rest ↦ cc (nothing gid rest)
        ];
      },
    )
    go (some rights) e (inr (grade, m, strongest)) =
        elim (Bool-cases (ltb (rank grade) (rank rights))) [
          | inl above ↦ inr (
            rights,
            ground (arith, e, m, above),
            record {
              granted = (g, inl refl, e);
              dominates = λ gid other member held. elim member [
                | inl same ↦
                    equal_rank rights other (sym e ∙ ap (Numbered.get group) (sym same) ∙ held)
                | inr rest ↦ ground (arith, above, strongest.dominates gid other rest held)
              ];
            },
          )
          | inr not_above ↦ inr (
            grade,
            ground (arith, e, m, not_above),
            record {
              granted = (strongest.granted.0, inr strongest.granted.1, strongest.granted.2);
              dominates = λ gid other member held. elim member [
                | inl same ↦ ground (
                  arith,
                  not_above,
                  equal_rank rights other (sym e ∙ ap (Numbered.get group) (sym same) ∙ held),
                )
                | inr rest ↦ strongest.dominates gid other rest held
              ];
            },
          )
        ]

-- The grade of a caller: that of the owner for the owner; for anyone else the strongest that any of
-- the caller's groups has on the a-node, if one has any; and for all others that of everyone else.
pub effective_rights_lem :
    (acl : Acl) (uid : ℕ) (gids : List ℕ)
    → ((uid ≡ acl.owner_uid) × (effective_rights acl uid gids ≡ acl.owner))
      ⊎ ((uid ≢ acl.owner_uid) × Strongest acl.group gids (effective_rights acl uid gids))
      ⊎ ((uid ≢ acl.owner_uid)
          × NoneShared acl.group gids
          × (effective_rights acl uid gids ≡ acl.other))
unfolding effective_rights
effective_rights_lem acl uid gids = elim (Bool-cases (uid == acl.owner_uid)) [
  | inl owns ↦ inl (ground (arith, owns), ground (arith, owns))
  | inr differs ↦ elim (max_shared_lem acl.group gids) [
    | inl (m, nothing) ↦ inr (inr (ground (arith, differs), nothing, ground (arith, differs, m)))
    | inr (grade, m, strongest) ↦ inr (
        inl (
          ground (arith, differs),
          subst (Strongest acl.group gids) (sym (ground (arith, differs, m))) strongest,
        ))
  ]
]
