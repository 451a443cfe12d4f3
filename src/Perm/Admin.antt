-- ===== src/Perm/Admin.antt =====
-- crates/arbordb/src/perm/store.rs: the administration of users and groups, over the metadata table. An
-- operation that fails is a transaction that is not committed. A counter wraps, as in a release build.
pub mod Accounts
pub mod Control
pub mod Listing
pub mod Promote
use arbordb.Common.{
  ℕ, ◌+◌, ◌%◌, ◌^◌, List, [], ◌∷◌, ◌++◌, Option, none, some, Bool, true, false, not, ◌==◌, ◌||◌,
  if◌then◌else◌, length, take, drop, Result, ok, err, corrupt, cannot_access, permission_denied,
  tampered, authentication_failed, frozen_user, ◌>>=◌,
}
use arbordb.Common.Be.{be, from_be}
use arbordb.Data.Utf8.{Text}
use arbordb.Path.Access.{same}
use arbordb.Perm.Authorize.{Session, master_uid, guest_uid, master_gid, contains}
use arbordb.Perm.Integrity.{Crypto, mac_control, ct_eq}
use arbordb.Perm.Store.{
  KeyringEntry, UserRecord, Users, GroupRecord, Groups, encode_users, load_users, encode_groups,
  load_groups,
}
use arbordb.Store.{Store}

abbrev pub super_gid : ℕ
super_gid = 1

abbrev pub users_key : Text
users_key = 0x75 ∷ 0x73 ∷ 0x65 ∷ 0x72 ∷ 0x73 ∷ []

abbrev pub groups_key : Text
groups_key = 0x67 ∷ 0x72 ∷ 0x6f ∷ 0x75 ∷ 0x70 ∷ 0x73 ∷ []

abbrev pub epoch_key : Text
epoch_key = 0x65 ∷ 0x70 ∷ 0x6f ∷ 0x63 ∷ 0x68 ∷ []

abbrev pub control_mac_key : Text
control_mac_key = 0x63 ∷ 0x6f ∷ 0x6e ∷ 0x74 ∷ 0x72 ∷ 0x6f ∷ 0x6c ∷ 0x5f ∷ 0x6d ∷ 0x61 ∷ 0x63 ∷ []

abbrev pub pubkey_key : Text
pubkey_key = 0x70 ∷ 0x75 ∷ 0x62 ∷ 0x6b ∷ 0x65 ∷ 0x79 ∷ []

abbrev pub bytes_or_empty : Option (List ℕ) → List ℕ
bytes_or_empty none = []
bytes_or_empty (some bytes) = bytes

unfoldable pub is_protected_user : ℕ → Bool
is_protected_user uid = (uid == master_uid) || (uid == guest_uid)

unfoldable pub is_protected_group : ℕ → Bool
is_protected_group gid = (gid == master_gid) || (gid == super_gid)

-- `split_secrets`: 32 bytes of the key, 32 of the seed.
unfoldable pub split_secrets : List ℕ → Result (List ℕ × List ℕ)
split_secrets plaintext =
    if not (length plaintext == 64) then err corrupt else ok (take 32 plaintext, drop 32 plaintext)

-- `iter().find(|candidate| candidate.name == name)`
unfoldable pub find_user : Text → List UserRecord → Option UserRecord
find_user name [] = none
find_user name (user ∷ users) =
    let rest = find_user name users in if same user.name name then some user else rest

unfoldable pub find_group : Text → List GroupRecord → Option GroupRecord
find_group name [] = none
find_group name (group ∷ groups) =
    let rest = find_group name groups in if same group.name name then some group else rest

abbrev pub is_some {ℓ} : {A : Type ℓ} → Option A → Bool
is_some none = false
is_some (some a) = true

-- `iter_mut().find(…)` and a change of what it finds.
unfoldable pub change_user :
    (UserRecord → Bool) → (UserRecord → UserRecord) → List UserRecord → List UserRecord
change_user test change [] = []
change_user test change (user ∷ users) =
    let rest = change_user test change users in
    if test user then change user ∷ users else user ∷ rest

unfoldable pub change_group :
    (GroupRecord → Bool) → (GroupRecord → GroupRecord) → List GroupRecord → List GroupRecord
change_group test change [] = []
change_group test change (group ∷ groups) =
    let rest = change_group test change groups in
    if test group then change group ∷ groups else group ∷ rest

unfoldable pub find_uid : ℕ → List UserRecord → Option UserRecord
find_uid uid [] = none
find_uid uid (user ∷ users) =
    let rest = find_uid uid users in if user.uid == uid then some user else rest

-- `gids.retain(|candidate| *candidate != gid)`
unfoldable pub without_gid : ℕ → List ℕ → List ℕ
without_gid gid [] = []
without_gid gid (g ∷ gids) = let rest = without_gid gid gids in if g == gid then rest else g ∷ rest

unfoldable pub strip_gid : ℕ → List UserRecord → List UserRecord
unfolding without_gid
strip_gid gid [] = []
strip_gid gid (user ∷ users) =
    record user { gids = without_gid gid user.gids } ∷ strip_gid gid users

unfoldable pub without_group : ℕ → List GroupRecord → List GroupRecord
without_group gid [] = []
without_group gid (group ∷ groups) =
    let rest = without_group gid groups in if group.gid == gid then rest else group ∷ rest

unfoldable pub without_user : ℕ → List UserRecord → List UserRecord
without_user uid [] = []
without_user uid (user ∷ users) =
    let rest = without_user uid users in if user.uid == uid then rest else user ∷ rest

-- What `crypto.rs` does with a password: a key is wrapped with a fresh salt and nonce, and unwrapped.
pub record Passwords : Type 0 where
  pub wrap_key : Text → List ℕ → Result KeyringEntry
  pub unwrap_key : Text → KeyringEntry → Result (List ℕ)

unfoldable pub with_user : Users → Text → List ℕ → KeyringEntry → Users
with_user users name gids keyring = record {
  next_uid = (users.next_uid + 1) % 2 ^ 32;
  users =
      users.users
      ++ record {
        name = name;
        uid = users.next_uid;
        frozen = false;
        gids = gids;
        keyring = some keyring;
      }
        ∷ [];
}

unfoldable pub group_of : Text → Groups → Result ℕ
group_of name groups = elim (find_group name groups.groups) [
  | none ↦ err cannot_access
  | some found ↦ ok found.gid
]

-- The epoch in what is stored under its key.
unfoldable pub stored_epoch : Option (List ℕ) → Result ℕ
stored_epoch none = ok 0
stored_epoch (some bytes) = if length bytes == 8 then ok (from_be bytes) else err corrupt

-- The stored tag is the expected one.
unfoldable pub check_tag : List ℕ → Option (List ℕ) → Result (Unit {0})
check_tag expected none = err tampered
check_tag expected (some stored) = if ct_eq stored expected then ok tt else err tampered

module _ (meta : Store (List ℕ)) (crypto : Crypto) (passwords : Passwords) where
  unfoldable pub read_epoch : meta.Table → Result ℕ
  read_epoch table = stored_epoch (meta.get table epoch_key)

  unfoldable pub control_tag : meta.Table → List ℕ → ℕ → List ℕ
  control_tag table key epoch =
      mac_control crypto key epoch (bytes_or_empty (meta.get table users_key))
        (bytes_or_empty (meta.get table groups_key)) (bytes_or_empty (meta.get table pubkey_key))

  unfoldable pub seal_control : List ℕ → meta.Table → Result meta.Table
  seal_control key table = do
    last ← read_epoch table
    let epoch = (last + 1) % 2 ^ 64
    ok (
        meta.insert control_mac_key (control_tag table key epoch)
          (meta.insert epoch_key (be 8 epoch) table))

  unfoldable pub verify_control : List ℕ → meta.Table → Result (Unit {0})
  verify_control key table = do
    epoch ← read_epoch table
    check_tag (control_tag table key epoch) (meta.get table control_mac_key)

  unfoldable pub users_of : meta.Table → Result Users
  users_of table = load_users (meta.get table users_key)

  unfoldable pub groups_of : meta.Table → Result Groups
  groups_of table = load_groups (meta.get table groups_key)

  abbrev pub store_users : Users → meta.Table → meta.Table
  store_users users table = meta.insert users_key (encode_users users) table

  abbrev pub store_groups : Groups → meta.Table → meta.Table
  store_groups groups table = meta.insert groups_key (encode_groups groups) table

  -- `authenticate`, from the `match` on the keyring on.
  unfoldable pub unlock : Text → meta.Table → UserRecord → Option KeyringEntry → Result Session
  unlock password table found none = err authentication_failed
  unlock password table found (some keyring) = do
    secret ← passwords.unwrap_key password keyring
    (key, seed) ← split_secrets secret
    verified ← verify_control key table
    ok (record {
      name = found.name;
      uid = found.uid;
      gids = found.gids;
      key = key;
      sign_seed = seed;
    })

  -- `authenticate`, with what the search for the user gives.
  unfoldable pub unlock_found : Text → meta.Table → Option UserRecord → Result Session
  unlock_found password table none = err authentication_failed
  unlock_found password table (some found) = unlock password table found found.keyring

  unfoldable pub authenticate : Text → Text → meta.Table → Result Session
  authenticate user password table = do
    users ← users_of table
    unlock_found password table (find_user user users.users)

  unfoldable pub change_user_password : Session → Text → meta.Table → Result meta.Table
  change_user_password session password table = do
    keyring ← passwords.wrap_key password (session.key ++ session.sign_seed)
    users ← users_of table
    elim (find_uid session.uid users.users) [
      | none ↦ err corrupt
      | some found ↦ seal_control session.key (
          store_users
            (record users {
              users =
                  change_user (λ user. user.uid == session.uid)
                    (λ user. record user { keyring = some keyring }) users.users;
            })
            table)
    ]

  -- A group of the user's name, when one is to be made.
  unfoldable pub own_group : Text → Bool → meta.Table → Result (List ℕ × meta.Table)
  own_group name false table = ok ([], table)
  own_group name true table = do
    groups ← groups_of table
    if is_some (find_group name groups.groups)
        then err cannot_access
        else ok (
          groups.next_gid ∷ [],
          store_groups
              (record {
                next_gid = (groups.next_gid + 1) % 2 ^ 32;
                groups = groups.groups ++ record { name = name; gid = groups.next_gid } ∷ [];
              })
              table,
        )

  unfoldable pub add_user : List ℕ → List ℕ → Text → Text → Bool → meta.Table → Result meta.Table
  add_user key seed name password create_group table = do
    keyring ← passwords.wrap_key password (key ++ seed)
    users ← users_of table
    if is_some (find_user name users.users) then err cannot_access else do
      (gids, changed) ← own_group name create_group table
      seal_control key (store_users (with_user users name gids keyring) changed)

  unfoldable pub add_group : List ℕ → Text → meta.Table → Result meta.Table
  add_group key name table = do
    (gids, changed) ← own_group name true table
    seal_control key changed

  unfoldable pub rename_user : List ℕ → Text → Text → meta.Table → Result meta.Table
  rename_user key old name table = do
    users ← users_of table
    if is_some (find_user name users.users)
        then err cannot_access
        else elim (find_user old users.users) [
          | none ↦ err cannot_access
          | some found ↦
              if is_protected_user found.uid
              then err permission_denied
              else seal_control key (
                  store_users
                    (record users {
                      users =
                          change_user (λ user. same user.name old)
                            (λ user. record user { name = name }) users.users;
                    })
                    table)
        ]

  unfoldable pub rename_group : List ℕ → Text → Text → meta.Table → Result meta.Table
  rename_group key old name table = do
    groups ← groups_of table
    if is_some (find_group name groups.groups)
        then err cannot_access
        else elim (find_group old groups.groups) [
          | none ↦ err cannot_access
          | some found ↦
              if is_protected_group found.gid
              then err permission_denied
              else seal_control key (
                  store_groups
                    (record groups {
                      groups =
                          change_group (λ group. same group.name old)
                            (λ group. record group { name = name }) groups.groups;
                    })
                    table)
        ]

  unfoldable pub assign : List ℕ → Text → Text → meta.Table → Result meta.Table
  assign key user group table = do
    users ← users_of table
    groups ← groups_of table
    gid ← group_of group groups
    elim (find_user user users.users) [
      | none ↦ err cannot_access
      | some found ↦
          if found.frozen
          then err frozen_user
          else if contains gid found.gids
          then ok table
          else seal_control key (
              store_users
                (record users {
                  users =
                      change_user (λ u. same u.name user)
                        (λ u. record u { gids = u.gids ++ gid ∷ [] }) users.users;
                })
                table)
    ]

  unfoldable pub unassign : List ℕ → Text → Text → meta.Table → Result meta.Table
  unassign key user group table = do
    users ← users_of table
    groups ← groups_of table
    gid ← group_of group groups
    elim (find_user user users.users) [
      | none ↦ err cannot_access
      | some found ↦
          if contains gid found.gids
          then seal_control key (
              store_users
                (record users {
                  users =
                      change_user (λ u. same u.name user)
                        (λ u. record u { gids = without_gid gid u.gids }) users.users;
                })
                table)
          else ok table
    ]

  -- The part of `remove_group` on the metadata, with the group that it removes.
  unfoldable pub remove_group : List ℕ → Text → meta.Table → Result (ℕ × meta.Table)
  remove_group key name table = do
    groups ← groups_of table
    gid ← group_of name groups
    if is_protected_group gid then err permission_denied else do
      users ← users_of table
      changed ← seal_control key (
          store_groups (record groups { groups = without_group gid groups.groups })
            (store_users (record users { users = strip_gid gid users.users }) table))
      ok (gid, changed)

  unfoldable pub forget_user : List ℕ → ℕ → meta.Table → Result meta.Table
  forget_user key uid table = do
    users ← users_of table
    seal_control key (store_users (record users { users = without_user uid users.users }) table)

  unfoldable pub uid_of : Text → meta.Table → Result (Option ℕ)
  uid_of name table = do
    users ← users_of table
    elim (find_user name users.users) [ none ↦ ok none | some found ↦ ok (some found.uid) ]

  unfoldable pub gid_of : Text → meta.Table → Result (Option ℕ)
  gid_of name table = do
    groups ← groups_of table
    elim (find_group name groups.groups) [ none ↦ ok none | some found ↦ ok (some found.gid) ]
