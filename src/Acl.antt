-- ===== src/Acl.antt =====
-- crates/arbordb/src/acl.rs and inode/acl.rs: the grades of access, and an a-node's access-control list.
pub mod Grades
pub mod Effective
pub mod Groups
pub mod RoundTrip
use arbordb.Common.{
  ltb, err, ◌≤◌, ℕ, zero, suc, ◌%◌, ◌^◌, ◌<◌, List, [], ◌∷◌, ◌++◌, Option, none, some, Bool, true,
  false, length, ◌==◌, if◌then◌else◌, Result, ok,
}
use arbordb.Common.Be.{be}
use arbordb.Common.Numbered
use arbordb.Codec.Reader.{Decoder, pure, u8, u32, new, ◌>>=◌}
use arbordb.Acl.Grades.{Rights, rank, to_bits, from_bits}

-- A map's keys are group ids.
abbrev pub Groups : Type 0
Groups = List (ℕ × Rights)

pub record Acl : Type 0 where
  pub owner_uid : ℕ
  pub owner : Rights
  pub group : Groups
  pub other : Rights

unfoldable pub default_for : ℕ → Acl
default_for owner_uid = record {
  owner_uid = owner_uid;
  owner = Rights.delete;
  group = [];
  other = Rights.access;
}

-- `self.group.get(&gid).copied().unwrap_or(Rights::None)`
unfoldable pub group_rights : Acl → ℕ → Rights
group_rights acl gid = elim (Numbered.get acl.group gid) [
  | none ↦ Rights.no_access
  | some rights ↦ rights
]

unfoldable pub set_group_rights : Acl → ℕ → Rights → Acl
set_group_rights acl gid rights =
    if rank rights == rank Rights.no_access
    then record acl { group = Numbered.remove gid acl.group }
    else record acl { group = Numbered.insert gid rights acl.group }

-- `self.group.entry(gid).or_insert(Rights::Access)`
unfoldable pub add_group : Acl → ℕ → Acl
add_group acl gid = elim (Numbered.get acl.group gid) [
  | none ↦ record acl { group = Numbered.insert gid Rights.access acl.group }
  | some rights ↦ acl
]

unfoldable pub remove_group : Acl → ℕ → Acl
remove_group acl gid = record acl { group = Numbered.remove gid acl.group }

unfoldable pub has_group : Acl → ℕ → Bool
has_group acl gid = elim (Numbered.get acl.group gid) [ none ↦ false | some rights ↦ true ]

keys : Groups → List ℕ
keys [] = []
keys ((gid, rights) ∷ rest) = gid ∷ keys rest

unfoldable pub group_ids : Acl → List ℕ
unfolding keys
group_ids acl = keys acl.group

-- `gids.iter().filter_map(|gid| self.group.get(gid).copied())`
unfoldable pub shared : Groups → List ℕ → List Rights
shared group [] = []
shared group (gid ∷ gids) =
    let rest = shared group gids in
    elim (Numbered.get group gid) [ none ↦ rest | some rights ↦ rights ∷ rest ]

-- `Iterator::max`
unfoldable pub max_rights : List Rights → Option Rights
max_rights [] = none
max_rights (grade ∷ grades) = elim (max_rights grades) [
  | none ↦ some grade
  | some best ↦ if ltb (rank best) (rank grade) then some grade else some best
]

unfoldable pub effective_rights : Acl → ℕ → List ℕ → Rights
unfolding shared max_rights
effective_rights acl uid gids =
    if uid == acl.owner_uid
    then acl.owner
    else elim (max_rights (shared acl.group gids)) [ none ↦ acl.other | some best ↦ best ]

-- The loop of `encode`.
unfoldable pub put_groups : List ℕ → Groups → List ℕ
unfolding to_bits
put_groups out [] = out
put_groups out ((gid, rights) ∷ rest) = put_groups ((out ++ be 4 gid) ++ to_bits rights ∷ []) rest

unfoldable pub encode : Acl → List ℕ
unfolding put_groups
encode acl =
    put_groups
      ((((be 4 acl.owner_uid) ++ to_bits acl.owner ∷ []) ++ to_bits acl.other ∷ [])
        ++ be 4 (length acl.group % 2 ^ 32))
      acl.group

-- `for _ in 0..count`, on the map so far.
unfoldable pub read_groups : ℕ → Groups → Decoder Groups
unfolding from_bits
read_groups zero group = pure group
read_groups (suc left) group = do
  gid ← u32
  bits ← u8
  read_groups left (Numbered.insert gid (from_bits bits) group)

unfoldable pub read_acl : Decoder Acl
unfolding read_groups
read_acl = do
  owner_uid ← u32
  owner ← u8
  other ← u8
  count ← u32
  group ← read_groups count []
  pure (record {
    owner_uid = owner_uid;
    owner = from_bits owner;
    group = group;
    other = from_bits other;
  })

-- What is left of the body is ignored.
unfoldable pub decode : List ℕ → Result Acl
unfolding read_acl
decode body = elim (read_acl (new body)) [ ok (acl, r) ↦ ok acl | err e ↦ err e ]

-- What the Rust type holds: numbers of 32 bits, and a map.
abbrev pub GroupsAbove : ℕ → Groups → Type 0
GroupsAbove bound [] = Unit
GroupsAbove bound ((gid, rights) ∷ rest) =
    (bound ≤ gid) × (gid < 2 ^ 32) × GroupsAbove (suc gid) rest

abbrev pub IsValid : Acl → Type 0
IsValid acl = (acl.owner_uid < 2 ^ 32) × (length acl.group < 2 ^ 32) × GroupsAbove 0 acl.group
