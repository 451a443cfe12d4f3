-- ===== src/Acl/Groups.antt =====
-- Changes to the groups of an access-control list.
use arbordb.Common.{
  ℕ, suc, ◌^◌, ◌≤◌, ◌<◌, ◌≡◌, ◌≢◌, [], ◌∷◌, Bool, true, false, if◌then◌else◌, arith,
}
use arbordb.Common.Numbered
use arbordb.Common.Numbered.{
  AscendsAbove, get-insert_same, get-insert_other, get-remove_same, get-remove_other,
}
use arbordb.Acl.{
  Acl, Groups, GroupsAbove, group_rights, set_group_rights, add_group, remove_group, has_group,
}
use arbordb.Acl.Grades.{Rights}

GroupsAbove-ascends :
    (bound : ℕ) (group : Groups) → GroupsAbove bound group → AscendsAbove bound group
GroupsAbove-ascends bound [] up = tt
GroupsAbove-ascends bound ((gid, rights) ∷ rest) up =
    (up.0, GroupsAbove-ascends (suc gid) rest up.2)

insert-GroupsAbove :
    (bound gid : ℕ) (rights : Rights) (group : Groups)
    → bound ≤ gid
    → gid < 2 ^ 32
    → GroupsAbove bound group
    → GroupsAbove bound (Numbered.insert gid rights group)
unfolding Numbered.insert
insert-GroupsAbove bound gid rights [] h small up = (h, small, tt)
insert-GroupsAbove bound gid rights ((k, v) ∷ rest) h small up =
    ground (arith, insert-GroupsAbove (suc k) gid rights rest)

GroupsAbove-weaken : (a b : ℕ) (group : Groups) → a ≤ b → GroupsAbove b group → GroupsAbove a group
GroupsAbove-weaken a b [] h up = tt
GroupsAbove-weaken a b ((k, v) ∷ rest) h up = (omega arith, up.1, up.2)

remove-GroupsAbove :
    (bound gid : ℕ) (group : Groups)
    → GroupsAbove bound group
    → GroupsAbove bound (Numbered.remove gid group)
unfolding Numbered.remove
remove-GroupsAbove bound gid [] up = tt
remove-GroupsAbove bound gid ((k, v) ∷ rest) up =
    ground (arith, remove-GroupsAbove (suc k) gid rest, GroupsAbove-weaken bound (suc k) rest)

-- A grade that a list keeps an entry for.
abbrev pub is_granted : Rights → Bool
is_granted Rights.no_access = false
is_granted Rights.access = true
is_granted Rights.modify = true
is_granted Rights.delete = true

granted :
    (acl : Acl) (gid other : ℕ) (rights : Rights)
    → GroupsAbove 0 acl.group
    → gid < 2 ^ 32
    → gid ≢ other
    → (group_rights (record acl { group = Numbered.insert gid rights acl.group }) gid ≡ rights)
      × (group_rights (record acl { group = Numbered.insert gid rights acl.group }) other
          ≡ group_rights acl other)
      × (has_group (record acl { group = Numbered.insert gid rights acl.group }) gid ≡ true)
      × (has_group (record acl { group = Numbered.insert gid rights acl.group }) other
          ≡ has_group acl other)
      × GroupsAbove 0 (Numbered.insert gid rights acl.group)
unfolding group_rights has_group
granted acl gid other rights up small ne = (
  rw (group_rights, get-insert_same gid rights acl.group),
  rw (
    group_rights,
    get-insert_other 0 gid other rights acl.group ne (GroupsAbove-ascends 0 acl.group up),
  ),
  rw (has_group, get-insert_same gid rights acl.group),
  rw (
    has_group,
    get-insert_other 0 gid other rights acl.group ne (GroupsAbove-ascends 0 acl.group up),
  ),
  insert-GroupsAbove 0 gid rights acl.group (omega arith) small up,
)

-- Granting a grade to a group grants exactly that grade to it. The list names the group after it unless
-- the grade is `no_access`, which takes the group out. What any other group is granted and whether it is
-- named are left, and a map in order stays in order.
pub group_rights-set_group_rights :
    (acl : Acl) (gid other : ℕ) (rights : Rights)
    → GroupsAbove 0 acl.group
    → gid < 2 ^ 32
    → gid ≢ other
    → (group_rights (set_group_rights acl gid rights) gid ≡ rights)
      × (group_rights (set_group_rights acl gid rights) other ≡ group_rights acl other)
      × (has_group (set_group_rights acl gid rights) gid ≡ is_granted rights)
      × (has_group (set_group_rights acl gid rights) other ≡ has_group acl other)
      × GroupsAbove 0 (set_group_rights acl gid rights).group
unfolding group_rights set_group_rights has_group
group_rights-set_group_rights acl gid other Rights.no_access up small ne =
    let ascends = GroupsAbove-ascends 0 acl.group up in
    (
      rw (group_rights, get-remove_same 0 gid acl.group ascends),
      rw (group_rights, get-remove_other 0 gid other acl.group ne ascends),
      rw (has_group, get-remove_same 0 gid acl.group ascends),
      rw (has_group, get-remove_other 0 gid other acl.group ne ascends),
      remove-GroupsAbove 0 gid acl.group up,
    )
group_rights-set_group_rights acl gid other Rights.access up small ne =
    granted acl gid other Rights.access up small ne
group_rights-set_group_rights acl gid other Rights.modify up small ne =
    granted acl gid other Rights.modify up small ne
group_rights-set_group_rights acl gid other Rights.delete up small ne =
    granted acl gid other Rights.delete up small ne

-- Adding a group to an a-node keeps the grade that the group has there and otherwise grants it
-- `access`, and leaves any other group; removing it again leaves the group without any grade.
pub add_group-remove_group :
    (acl : Acl) (gid other : ℕ)
    → GroupsAbove 0 acl.group
    → gid ≢ other
    → (group_rights (add_group acl gid) gid
        ≡ (if has_group acl gid then group_rights acl gid else Rights.access))
      × (group_rights (add_group acl gid) other ≡ group_rights acl other)
      × (has_group (add_group acl gid) gid ≡ true)
      × (has_group (remove_group acl gid) gid ≡ false)
      × (group_rights (remove_group acl gid) other ≡ group_rights acl other)
unfolding group_rights add_group has_group remove_group
add_group-remove_group acl gid other up ne =
    let ascends = GroupsAbove-ascends 0 acl.group up in
    let same = get-insert_same gid Rights.access acl.group in
    let elsewhere = get-insert_other 0 gid other Rights.access acl.group ne ascends in
    let gone = get-remove_same 0 gid acl.group ascends in
    let kept = get-remove_other 0 gid other acl.group ne ascends in
    (
      ground (arith, same),
      ground (arith, elsewhere),
      ground (arith, same),
      rw (has_group, gone),
      rw (group_rights, kept),
    )
