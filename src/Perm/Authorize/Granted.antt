-- ===== src/Perm/Authorize/Granted.antt =====
-- What a caller is granted, told without the order of the checks.
use arbordb.Common.{
  ℕ, ◌≡◌, ◌≤◌, refl, ◌⊎◌, inl, inr, ◌↔◌, Result, List, [], ◌∷◌, Option, none, some, Bool-cases,
  true, false, ◌==◌, if◌then◌else◌, ok, arith,
}
use arbordb.Key.{AKey, root}
use arbordb.Acl.{Acl, effective_rights}
use arbordb.Acl.Grades.{Rights, rank, includes}
use arbordb.Acl.Effective.{Member}
use arbordb.Perm.Authorize.{
  Session, Principal, unrestricted, guest, user, is_master, contains, in_master_group,
  exceeds_guest, bypasses, by_grade, by_acl, authorize, master_uid, master_gid, guest_uid,
}

-- The guest asks to read only.
abbrev pub StaysInRole : Principal → Rights → Type 0
StaysInRole unrestricted needed = Unit
StaysInRole (guest pubkey) needed = rank needed ≤ rank Rights.access
StaysInRole (user session) needed = Unit

-- A user without an ACL to go by must be in the master group.
abbrev pub Granted : Principal → Option Acl → Rights → Type 0
Granted unrestricted acl needed = Unit
Granted (guest pubkey) none needed = ⊥
Granted (guest pubkey) (some acl) needed = rank needed ≤ rank (effective_rights acl guest_uid [])
Granted (user session) none needed = (session.uid ≡ master_uid) ⊎ Member master_gid session.gids
Granted (user session) (some acl) needed =
    (session.uid ≡ master_uid)
    ⊎ (rank needed ≤ rank (effective_rights acl session.uid session.gids))

abbrev pub MayUse : Principal → AKey → Option Acl → Rights → Type 0
MayUse principal akey acl needed =
    StaysInRole principal needed × ((akey ≡ root) ⊎ Granted principal acl needed)

pub contains-Member : (gid : ℕ) (gids : List ℕ) → contains gid gids ≡ true → Member gid gids
unfolding contains
contains-Member gid [] h = cc
contains-Member gid (g ∷ gids) h = elim (Bool-cases (g == gid)) [
  | inl same ↦ inl (ground (arith, same))
  | inr other ↦ inr (contains-Member gid gids (ground (arith, h, other)))
]

pub Member-contains : (gid : ℕ) (gids : List ℕ) → Member gid gids → contains gid gids ≡ true
unfolding contains
Member-contains gid [] m = absurd m
Member-contains gid (g ∷ gids) (inl e) = ground (arith, e)
Member-contains gid (g ∷ gids) (inr m) =
    let further = Member-contains gid gids m in ground (arith, further)

by_grade-granted :
    (acl : Acl) (uid : ℕ) (gids : List ℕ) (needed : Rights)
    → by_grade acl uid gids needed ≡ ok tt
    → rank needed ≤ rank (effective_rights acl uid gids)
unfolding by_grade includes
by_grade-granted acl uid gids needed h = ground (arith, h)

granted-by_grade :
    (acl : Acl) (uid : ℕ) (gids : List ℕ) (needed : Rights)
    → rank needed ≤ rank (effective_rights acl uid gids)
    → by_grade acl uid gids needed ≡ ok tt
unfolding by_grade includes
granted-by_grade acl uid gids needed h = ground (arith, h)

pub master_lem : (session : Session) → is_master session ≡ true → session.uid ≡ master_uid
unfolding is_master
master_lem session h = ground (arith, h)

pub lem_master : (session : Session) → session.uid ≡ master_uid → is_master session ≡ true
unfolding is_master
lem_master session h = ground (arith, h)

-- The checks behind the one on the root.
checked : Principal → Option Acl → Rights → Result (Unit {0})
checked principal acl needed = if bypasses principal then ok tt else by_acl principal acl needed

checked-Granted :
    (principal : Principal) (acl : Option Acl) (needed : Rights)
    → checked principal acl needed ≡ ok tt
    → Granted principal acl needed
unfolding checked bypasses by_acl in_master_group
checked-Granted unrestricted acl needed h = tt
checked-Granted (guest pubkey) none needed h = cc
checked-Granted (guest pubkey) (some acl) needed h = by_grade-granted acl guest_uid [] needed h
checked-Granted (user session) none needed h = elim (Bool-cases (is_master session)) [
  | inl master ↦ inl (master_lem session master)
  | inr other ↦ inr (contains-Member master_gid session.gids (ground (arith, h, other)))
]
checked-Granted (user session) (some acl) needed h = elim (Bool-cases (is_master session)) [
  | inl master ↦ inl (master_lem session master)
  | inr other ↦ inr (by_grade-granted acl session.uid session.gids needed (rw other at h))
]

Granted-checked :
    (principal : Principal) (acl : Option Acl) (needed : Rights)
    → Granted principal acl needed
    → checked principal acl needed ≡ ok tt
unfolding checked bypasses by_acl in_master_group
Granted-checked unrestricted acl needed g = refl
Granted-checked (guest pubkey) none needed g = absurd g
Granted-checked (guest pubkey) (some acl) needed g = granted-by_grade acl guest_uid [] needed g
Granted-checked (user session) none needed (inl master) = rw (lem_master session master)
Granted-checked (user session) none needed (inr member) =
    let found = Member-contains master_gid session.gids member in ground (arith, found)
Granted-checked (user session) (some acl) needed (inl master) = rw (lem_master session master)
Granted-checked (user session) (some acl) needed (inr grade) =
    elim (Bool-cases (is_master session)) [
      | inl master ↦ rw master
      | inr other ↦ rw other (granted-by_grade acl session.uid session.gids needed grade)
    ]

role_kept :
    (principal : Principal) (needed : Rights)
    → exceeds_guest principal needed ≡ false
    → StaysInRole principal needed
unfolding exceeds_guest
role_kept unrestricted needed h = tt
role_kept (guest pubkey) needed h = ground (arith, h)
role_kept (user session) needed h = tt

kept_role :
    (principal : Principal) (needed : Rights)
    → StaysInRole principal needed
    → exceeds_guest principal needed ≡ false
unfolding exceeds_guest
kept_role unrestricted needed h = refl
kept_role (guest pubkey) needed h = ground (arith, h)
kept_role (user session) needed h = refl

allowed :
    (principal : Principal) (akey : AKey) (acl : Option Acl) (needed : Rights)
    → authorize principal akey acl needed ≡ ok tt
    → MayUse principal akey acl needed
unfolding authorize checked
allowed principal akey acl needed h = elim (Bool-cases (exceeds_guest principal needed)) [
  | inl out ↦ absurd (ground (arith, h, out))
  | inr kept ↦ (
    role_kept principal needed kept,
    elim (Bool-cases (akey == root)) [
      | inl top ↦ inl (ground (arith, top))
      | inr below ↦ inr (checked-Granted principal acl needed (rw (kept, below) at h))
    ],
  )
]

permitted :
    (principal : Principal) (akey : AKey) (acl : Option Acl) (needed : Rights)
    → MayUse principal akey acl needed
    → authorize principal akey acl needed ≡ ok tt
unfolding authorize checked
permitted principal akey acl needed (role, inl top) = rw (kept_role principal needed role, top)
permitted principal akey acl needed (role, inr granted) = elim (Bool-cases (akey == root)) [
  | inl top ↦ rw (kept_role principal needed role, top)
  | inr below ↦
      rw (kept_role principal needed role, below) (Granted-checked principal acl needed granted)
]

-- A caller is let through exactly when the guest asks to read at most, and either the a-node is the
-- root or the caller is granted the grade: an unrestricted handle and the master user always, a member
-- of the master group when there is no ACL, anyone else by the ACL's grade for the caller.
pub authorize_lem :
    (principal : Principal) (akey : AKey) (acl : Option Acl) (needed : Rights)
    → (authorize principal akey acl needed ≡ ok tt) ↔ MayUse principal akey acl needed
authorize_lem principal akey acl needed =
    (allowed principal akey acl needed, permitted principal akey acl needed)

less_needed :
    (principal : Principal) (acl : Option Acl) (needed weaker : Rights)
    → rank weaker ≤ rank needed
    → Granted principal acl needed
    → Granted principal acl weaker
less_needed unrestricted acl needed weaker less g = tt
less_needed (guest pubkey) none needed weaker less g = g
less_needed (guest pubkey) (some acl) needed weaker less g = omega arith
less_needed (user session) none needed weaker less g = g
less_needed (user session) (some acl) needed weaker less (inl master) = inl master
less_needed (user session) (some acl) needed weaker less (inr grade) = inr (omega arith)

less_asked :
    (principal : Principal) (needed weaker : Rights)
    → rank weaker ≤ rank needed
    → StaysInRole principal needed
    → StaysInRole principal weaker
less_asked unrestricted needed weaker less h = tt
less_asked (guest pubkey) needed weaker less h = omega arith
less_asked (user session) needed weaker less h = tt

-- Whoever may exercise a grade on an a-node may exercise every weaker grade on it.
pub authorize_weaker :
    (principal : Principal) (akey : AKey) (acl : Option Acl) (needed weaker : Rights)
    → rank weaker ≤ rank needed
    → authorize principal akey acl needed ≡ ok tt
    → authorize principal akey acl weaker ≡ ok tt
authorize_weaker principal akey acl needed weaker less h =
    let (role, reach) = allowed principal akey acl needed h in
    permitted principal akey acl weaker (
      less_asked principal needed weaker less role,
      elim reach [
        | inl top ↦ inl top
        | inr granted ↦ inr (less_needed principal acl needed weaker less granted)
      ],
    )
