-- ===== src/Perm/Admin/Promote.antt =====
-- crates/arbordb/src/perm/store.rs: `promote_to_master`, the metadata that it writes and what it writes
-- for each a-node that is there.
use arbordb.Common.{
  ℕ, List, [], ◌∷◌, Option, none, some, true, false, ◌==◌, if◌then◌else◌, Result, ok, err,
  cannot_access, ◌>>=◌,
}
use arbordb.Acl.{Acl}
use arbordb.Acl
use arbordb.Data.Utf8.{Text}
use arbordb.Engine.Features.{require, permissions_name}
use arbordb.Inode.Functions.{set_default_acl, read_acl, seal_mac, seal_sig}
use arbordb.Key.{AKey, root}
use arbordb.Perm.Admin.{
  Passwords, users_key, pubkey_key, super_gid, is_some, store_users, store_groups, seal_control,
}
use arbordb.Perm.Authorize.{master_uid, guest_uid, master_gid}
use arbordb.Perm.Integrity.{Crypto, mac_value, sign_value}
use arbordb.Perm.Store.{KeyringEntry, Users, Groups}
use arbordb.Store.{Store}

-- "master"
abbrev pub master_name : Text
master_name = 0x6d ∷ 0x61 ∷ 0x73 ∷ 0x74 ∷ 0x65 ∷ 0x72 ∷ []

-- "guest"
abbrev pub guest_name : Text
guest_name = 0x67 ∷ 0x75 ∷ 0x65 ∷ 0x73 ∷ 0x74 ∷ []

-- "super"
abbrev pub super_name : Text
super_name = 0x73 ∷ 0x75 ∷ 0x70 ∷ 0x65 ∷ 0x72 ∷ []

unfoldable pub first_users : KeyringEntry → Users
first_users keyring = record {
  next_uid = 2;
  users =
      record {
        name = master_name;
        uid = master_uid;
        frozen = false;
        gids = master_gid ∷ [];
        keyring = some keyring;
      }
      ∷ record { name = guest_name; uid = guest_uid; frozen = true; gids = []; keyring = none }
      ∷ [];
}

abbrev pub first_groups : Groups
first_groups = record {
  next_gid = 2;
  groups =
      record { name = master_name; gid = master_gid }
      ∷ record { name = super_name; gid = super_gid }
      ∷ [];
}

-- `map(|acl| acl.encode()).unwrap_or_default()`
abbrev acl_blob : Option Acl → List ℕ
acl_blob none = []
acl_blob (some acl) = Acl.encode acl

module _ (meta : Store (List ℕ)) (crypto : Crypto) (passwords : Passwords) where
  -- The part on the metadata; the keyring wraps both secrets.
  unfoldable pub promote_meta : List ℕ → List ℕ → KeyringEntry → meta.Table → Result meta.Table
  promote_meta key pubkey keyring table =
      if is_some (meta.get table users_key) then err cannot_access else do
        marked ← require meta permissions_name (
            store_groups meta crypto passwords first_groups
              (store_users meta crypto passwords (first_users keyring) table))
        seal_control meta crypto passwords key (meta.insert pubkey_key pubkey marked)

  -- One round of the back-fill.
  unfoldable pub seal_row : List ℕ → List ℕ → Text → AKey → List ℕ → meta.Table → Result meta.Table
  seal_row key seed table akey entry inodes = do
    owned ← if akey == root then ok inodes else set_default_acl meta inodes table akey master_uid
    acl ← read_acl meta owned table akey
    let bound = acl_blob acl
    tagged ← seal_mac meta owned table akey (mac_value crypto key table akey entry bound)
    seal_sig meta tagged table akey (sign_value crypto seed table akey entry bound)

  unfoldable pub back_fill :
      List ℕ → List ℕ → Text → List (AKey × List ℕ) → meta.Table → Result meta.Table
  back_fill key seed table [] inodes = ok inodes
  back_fill key seed table ((akey, entry) ∷ rows) inodes = do
    sealed ← seal_row key seed table akey entry inodes
    back_fill key seed table rows sealed
