-- ===== src/Runs/Permissions.antt =====
-- Users and groups of a protected database, and what they may do.
use arbordb.Common.{
  ℕ, List, ◌^◌, ◌<◌, ◌≡◌, ◌↔◌, refl, [], ◌∷◌, none, some, true, false, length, ok, arith,
}
use arbordb.Common.Be.{be}
use arbordb.Common.Numbered
use arbordb.Codec.Putters.{put_u32, put_bytes}
use arbordb.Perm.Store.{
  Users, Groups, encode_users, encode_groups, load_users, load_groups, put_gids, put_keyring,
  put_users, put_user, put_group_records,
}
use arbordb.Perm.Store.RoundTrip.{UsersAreValid, load_users-encode}
use arbordb.Perm.Store.GroupRecords.{GroupsAreValid, load_groups-encode}
use arbordb.Data.Utf8.{is_utf8}
use arbordb.Acl.{Acl}
use arbordb.Acl.Grades.{Rights}
use arbordb.Perm.Authorize.{Session, user, authorize, authorize_chown}
use arbordb.Perm.Authorize.Granted.{MayUse, authorize_lem, authorize_weaker}
use arbordb.Perm.Authorize.Chown.{MayChown, authorize_chown_lem}
use arbordb.Key.{AKey}
use arbordb.Perm.Integrity.Binding.{absorb_value-injective}
use arbordb.Runs.Samples.{zeros}

-- "root", who holds the secrets, and the frozen "guest".
abbrev sample_users : Users
sample_users = record {
  next_uid = 2;
  users =
      record {
        name = 114 ∷ 111 ∷ 111 ∷ 116 ∷ [];
        uid = 0;
        frozen = false;
        gids = 0 ∷ 1 ∷ [];
        keyring = some (record { salt = zeros 16; nonce = zeros 24; wrapped = 1 ∷ 2 ∷ [] });
      }
      ∷ record { name = 103 ∷ 117 ∷ []; uid = 1; frozen = true; gids = []; keyring = none }
      ∷ [];
}

sample_users-valid : UsersAreValid sample_users
unfolding is_utf8
sample_users-valid = (
  omega arith,
  omega arith,
  (
    (
      refl,
      omega arith,
      omega arith,
      omega arith,
      (omega arith, (omega arith, tt)),
      (refl, refl, omega arith),
    ),
    ((refl, omega arith, omega arith, omega arith, tt, tt), tt),
  ),
)

sample_users-small : length (encode_users sample_users) < 2 ^ 64
unfolding encode_users put_users put_user put_gids put_keyring put_u32 put_bytes be
sample_users-small = omega arith

load_users-encode_example : load_users (some (encode_users sample_users)) ≡ ok sample_users
load_users-encode_example = load_users-encode sample_users sample_users-valid sample_users-small

abbrev sample_groups : Groups
sample_groups = record { next_gid = 3; groups = record { name = 97 ∷ []; gid = 2 } ∷ [] }

sample_groups-valid : GroupsAreValid sample_groups
unfolding is_utf8
sample_groups-valid = (omega arith, omega arith, ((refl, omega arith, omega arith), tt))

sample_groups-small : length (encode_groups sample_groups) < 2 ^ 64
unfolding encode_groups put_group_records put_u32 put_bytes be
sample_groups-small = omega arith

load_groups-encode_example : load_groups (some (encode_groups sample_groups)) ≡ ok sample_groups
load_groups-encode_example =
    load_groups-encode sample_groups sample_groups-valid sample_groups-small

-- User 4 of group 8.
abbrev sample_session : Session
sample_session = record {
  name = 97 ∷ [];
  uid = 4;
  gids = 8 ∷ [];
  key = zeros 32;
  sign_seed = zeros 32;
}

-- User 1 owns it; group 8 may write.
abbrev shared_acl : Acl
shared_acl = record {
  owner_uid = 1;
  owner = Rights.delete;
  group = (8, Rights.modify) ∷ [];
  other = Rights.no_access;
}

authorize_lem_example :
    (authorize (user sample_session) 5 (some shared_acl) Rights.modify ≡ ok tt)
    ↔ MayUse (user sample_session) 5 (some shared_acl) Rights.modify
authorize_lem_example = authorize_lem (user sample_session) 5 (some shared_acl) Rights.modify

writes : authorize (user sample_session) 5 (some shared_acl) Rights.modify ≡ ok tt
unfolding authorize Numbered.get
writes = refl

authorize_weaker_example : authorize (user sample_session) 5 (some shared_acl) Rights.access ≡ ok tt
authorize_weaker_example =
    authorize_weaker (user sample_session) 5 (some shared_acl) Rights.modify Rights.access
      (omega arith) writes

authorize_chown_lem_example :
    (authorize_chown (user sample_session) shared_acl ≡ ok tt)
    ↔ MayChown (user sample_session) shared_acl
authorize_chown_lem_example = authorize_chown_lem (user sample_session) shared_acl

abbrev table_bytes : List ℕ
table_bytes = 0x74 ∷ []

abbrev blob_bytes : List ℕ
blob_bytes = 1 ∷ 0 ∷ []

abbrev acl_bytes : List ℕ
acl_bytes = 9 ∷ []

sample_message-sizes :
    (length table_bytes < 2 ^ 64) × (length blob_bytes < 2 ^ 64) × (length acl_bytes < 2 ^ 64)
sample_message-sizes = (omega arith, omega arith, omega arith)

absorb_value-injective_example :
    (table_bytes ≡ table_bytes)
    × (◌≡◌ {A = AKey} 5 5)
    × (blob_bytes ≡ blob_bytes)
    × (acl_bytes ≡ acl_bytes)
absorb_value-injective_example =
    absorb_value-injective table_bytes table_bytes 5 5 blob_bytes blob_bytes acl_bytes acl_bytes
      (omega arith) (omega arith) sample_message-sizes sample_message-sizes refl
