-- ===== src/Runs/Accounts.antt =====
-- The administration of a protected database, on concrete data.
use arbordb.Common.{
  ℕ, ◌^◌, ◌<◌, ◌≡◌, refl, List, [], ◌∷◌, ◌++◌, Option, none, some, Bool, true, false, length, ok,
  arith,
}
use arbordb.Common.Be.{be}
use arbordb.Codec.Putters.{put_u32, put_bytes}
use arbordb.Data.Utf8.{Text, is_utf8}
use arbordb.Perm.Admin.{
  Passwords, users_of, own_group, with_user, add_user, find_user, find_group, authenticate,
  store_users, read_epoch, stored_epoch, seal_control, groups_of, store_groups,
}
use arbordb.Perm.Admin.Control.{sealed_as}
use arbordb.Perm.Admin.Accounts.{add_user-authenticate}
use arbordb.Perm.Integrity.{Crypto}
use arbordb.Perm.Store.{
  KeyringEntry, Users, encode_users, load_users, load_groups, put_gids, put_keyring, put_user,
  put_users,
}
use arbordb.Perm.Store.RoundTrip.{UsersAreValid}
use arbordb.Runs.Samples.{put, sample_store, empty_table, zeros}

-- A hash that keeps everything, and a wrapping in the clear.
abbrev clear_crypto : Crypto
clear_crypto = record {
  keyed_hash = λ key message. key ++ message;
  hash = λ message. message;
  sign = λ seed message. seed ++ message;
  verify = λ pubkey message signature. true;
}

abbrev clear_passwords : Passwords
clear_passwords = record {
  wrap_key = λ password secret. ok (record { salt = zeros 16; nonce = zeros 24; wrapped = secret });
  unwrap_key = λ password keyring. ok keyring.wrapped;
}

abbrev clear_keyring : KeyringEntry
clear_keyring = record { salt = zeros 16; nonce = zeros 24; wrapped = zeros 32 ++ zeros 32 }

abbrev no_users : Users
no_users = record { next_uid = 2; users = [] }

-- "al", with a group of that name.
abbrev al : Text
al = 0x61 ∷ 0x6c ∷ []

abbrev with_group : List ℕ → Option (List ℕ)
with_group =
    store_groups sample_store clear_crypto clear_passwords
      (record { next_gid = 3; groups = record { name = al; gid = 2 } ∷ [] }) empty_table

abbrev with_al : List ℕ → Option (List ℕ)
with_al = sealed_as sample_store clear_crypto clear_passwords (zeros 32) 1 (
    store_users sample_store clear_crypto clear_passwords
      (with_user no_users al (2 ∷ []) clear_keyring) with_group)

al_owns :
    own_group sample_store clear_crypto clear_passwords al true empty_table
    ≡ ok (2 ∷ [], with_group)
unfolding own_group groups_of load_groups find_group
al_owns = refl

al_added :
    add_user sample_store clear_crypto clear_passwords (zeros 32) (zeros 32) al [] true empty_table
    ≡ ok with_al
unfolding add_user users_of load_users find_user own_group groups_of load_groups find_group
    seal_control read_epoch stored_epoch put arbordb.Common.Lex.lex
al_added = refl

al-valid : UsersAreValid (with_user no_users al (2 ∷ []) clear_keyring)
unfolding with_user is_utf8
al-valid = (
  omega arith,
  omega arith,
  ((refl, omega arith, omega arith, omega arith, (omega arith, tt), (refl, refl, omega arith)), tt),
)

al-small : length (encode_users (with_user no_users al (2 ∷ []) clear_keyring)) < 2 ^ 64
unfolding with_user encode_users put_users put_user put_gids put_keyring put_u32 put_bytes be
al-small = omega arith

al_loads : users_of sample_store clear_crypto clear_passwords empty_table ≡ ok no_users
unfolding users_of load_users
al_loads = refl

add_user-authenticate_example :
    authenticate sample_store clear_crypto clear_passwords al [] with_al
    ≡ ok (record { name = al; uid = 2; gids = 2 ∷ []; key = zeros 32; sign_seed = zeros 32 })
add_user-authenticate_example =
    add_user-authenticate sample_store clear_crypto clear_passwords (zeros 32) (zeros 32) al [] true
      empty_table with_al with_group no_users clear_keyring (2 ∷ []) refl refl refl refl al_loads
      al_owns al-valid al-small al_added
