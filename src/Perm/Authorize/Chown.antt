-- ===== src/Perm/Authorize/Chown.antt =====
-- Who may change the owner of an a-node, told without the order of the checks.
use arbordb.Common.{◌≡◌, refl, ◌⊎◌, inl, inr, ◌↔◌, Bool-cases, ok, arith}
use arbordb.Acl.{Acl}
use arbordb.Acl.Effective.{Member}
use arbordb.Perm.Authorize.{
  Principal, unrestricted, guest, user, is_master, contains, in_master_group, may_chown,
  authorize_chown, master_uid, master_gid,
}
use arbordb.Perm.Authorize.Granted.{contains-Member, Member-contains, master_lem, lem_master}

-- Who may change the owner.
abbrev pub MayChown : Principal → Acl → Type 0
MayChown unrestricted acl = Unit
MayChown (guest pubkey) acl = ⊥
MayChown (user session) acl =
    (session.uid ≡ master_uid) ⊎ (Member master_gid session.gids ⊎ (session.uid ≡ acl.owner_uid))

chown_allowed :
    (principal : Principal) (acl : Acl)
    → authorize_chown principal acl ≡ ok tt
    → MayChown principal acl
unfolding authorize_chown may_chown in_master_group
chown_allowed unrestricted acl h = tt
chown_allowed (guest pubkey) acl h = cc
chown_allowed (user session) acl h = elim (Bool-cases (is_master session)) [
  | inl master ↦ inl (master_lem session master)
  | inr other ↦ inr (elim (Bool-cases (contains master_gid session.gids)) [
    | inl member ↦ inl (contains-Member master_gid session.gids member)
    | inr outside ↦ inr (ground (arith, h, other, outside))
  ])
]

chown_permitted :
    (principal : Principal) (acl : Acl)
    → MayChown principal acl
    → authorize_chown principal acl ≡ ok tt
unfolding authorize_chown may_chown in_master_group
chown_permitted unrestricted acl g = refl
chown_permitted (guest pubkey) acl g = absurd g
chown_permitted (user session) acl (inl master) = rw (lem_master session master)
chown_permitted (user session) acl (inr (inl member)) =
    let found = Member-contains master_gid session.gids member in ground (arith, found)
chown_permitted (user session) acl (inr (inr owner)) = ground (arith, owner)

-- The owner of an a-node may be changed exactly by an unrestricted handle, the master user, a member of
-- the master group, and a user who is the present owner.
pub authorize_chown_lem :
    (principal : Principal) (acl : Acl)
    → (authorize_chown principal acl ≡ ok tt) ↔ MayChown principal acl
authorize_chown_lem principal acl = (chown_allowed principal acl, chown_permitted principal acl)
