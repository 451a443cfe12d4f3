-- ===== src/Perm/Admin/Listing.antt =====
-- crates/arbordb/src/perm/store.rs: the listings of users and groups, over the metadata table.
use arbordb.Common.{
  ℕ, List, [], ◌∷◌, Option, none, some, Bool, true, false, ◌==◌, if◌then◌else◌, length, Result, ok,
  err, corrupt, cannot_access, ◌>>=◌, Ordering,
}
use arbordb.Common.Lex.{lex}
use arbordb.Data.Utf8.{Text}
use arbordb.Perm.Admin.{
  Passwords, users_of, groups_of, group_of, find_user, find_uid, bytes_or_empty, pubkey_key,
}
use arbordb.Perm.Authorize.{contains}
use arbordb.Perm.Integrity.{Crypto}
use arbordb.Perm.Store.{UserRecord, GroupRecord}
use arbordb.Store.{Store}

-- Whether a name stays before another in a sorted list.
abbrev stays : Ordering → Bool
stays Ordering.gt = false
stays Ordering.eq = true
stays Ordering.lt = true

unfoldable pub insert_name : Text → List Text → List Text
insert_name name [] = name ∷ []
insert_name name (other ∷ names) =
    let rest = insert_name name names in
    if stays (lex name other) then name ∷ other ∷ names else other ∷ rest

-- `names.sort()`
unfoldable pub sort : List Text → List Text
sort [] = []
sort (name ∷ names) = insert_name name (sort names)

unfoldable pub user_names : List UserRecord → List Text
user_names [] = []
user_names (user ∷ users) = user.name ∷ user_names users

unfoldable pub group_names : List GroupRecord → List Text
group_names [] = []
group_names (group ∷ groups) = group.name ∷ group_names groups

-- `filter(|group| record.gids.contains(&group.gid))`
unfoldable pub groups_among : List ℕ → List GroupRecord → List GroupRecord
groups_among gids [] = []
groups_among gids (group ∷ groups) =
    let rest = groups_among gids groups in if contains group.gid gids then group ∷ rest else rest

-- `filter(|user| user.gids.contains(&gid))`
unfoldable pub members : ℕ → List UserRecord → List UserRecord
members gid [] = []
members gid (user ∷ users) =
    let rest = members gid users in if contains gid user.gids then user ∷ rest else rest

unfoldable pub find_gid : ℕ → List GroupRecord → Option GroupRecord
find_gid gid [] = none
find_gid gid (group ∷ groups) =
    let rest = find_gid gid groups in if group.gid == gid then some group else rest

module _ (meta : Store (List ℕ)) (crypto : Crypto) (passwords : Passwords) where
  unfoldable pub list_users : meta.Table → Result (List Text)
  list_users table = do
    users ← users_of meta crypto passwords table
    ok (sort (user_names users.users))

  unfoldable pub list_groups : meta.Table → Result (List Text)
  list_groups table = do
    groups ← groups_of meta crypto passwords table
    ok (sort (group_names groups.groups))

  unfoldable pub user_groups : Text → meta.Table → Result (List Text)
  user_groups user table = do
    users ← users_of meta crypto passwords table
    groups ← groups_of meta crypto passwords table
    elim (find_user user users.users) [
      | none ↦ err cannot_access
      | some found ↦ ok (sort (group_names (groups_among found.gids groups.groups)))
    ]

  unfoldable pub group_members : Text → meta.Table → Result (List Text)
  group_members group table = do
    users ← users_of meta crypto passwords table
    groups ← groups_of meta crypto passwords table
    gid ← group_of group groups
    ok (sort (user_names (members gid users.users)))

  unfoldable pub name_of_user : ℕ → meta.Table → Result (Option Text)
  name_of_user uid table = do
    users ← users_of meta crypto passwords table
    elim (find_uid uid users.users) [ none ↦ ok none | some found ↦ ok (some found.name) ]

  unfoldable pub name_of_group : ℕ → meta.Table → Result (Option Text)
  name_of_group gid table = do
    groups ← groups_of meta crypto passwords table
    elim (find_gid gid groups.groups) [ none ↦ ok none | some found ↦ ok (some found.name) ]

  unfoldable pub load_pubkey : meta.Table → Result (List ℕ)
  load_pubkey table =
      let bytes = bytes_or_empty (meta.get table pubkey_key) in
      if length bytes == 32 then ok bytes else err corrupt
