-- ===== src/Perm/Admin/Accounts.antt =====
-- A user who was added logs in.
use arbordb.Common.{
  ℕ, ◌^◌, ◌<◌, ◌≡◌, refl, sym, ap, ◌∙◌, List, [], ◌∷◌, ◌++◌, Option, none, some, Bool, true, false,
  if◌then◌else◌, length, take, drop, ok, err, arith, length-append, take-append_length,
  drop-append_length, cannot_access,
}
use arbordb.Common.Lex.{is_eq, lex_refl}
use arbordb.Data.Utf8.{Text}
use arbordb.Path.Access.{same}
use arbordb.Perm.Admin.{
  Passwords, users_of, own_group, with_user, add_user, find_user, authenticate, unlock,
  unlock_found, split_secrets, verify_control, seal_control, store_users, users_key, is_some,
}
use arbordb.Perm.Admin.Control.{
  sealed_as, sealed-kept, seal_control-sealed, seal_control-verify_control, apart,
}
use arbordb.Perm.Integrity.{Crypto}
use arbordb.Perm.Store.{KeyringEntry, UserRecord, Users, encode_users, load_users}
use arbordb.Perm.Store.RoundTrip.{UsersAreValid, load_users-encode}
use arbordb.Store.{Store}

same_self : (a : Text) → same a a ≡ true
same_self a = ap is_eq (lex_refl a)

find_user_last :
    (name : Text) (users : List UserRecord) (user : UserRecord)
    → find_user name users ≡ none
    → same user.name name ≡ true
    → find_user name (users ++ user ∷ []) ≡ some user
unfolding find_user
find_user_last name [] user h e = rw e refl
find_user_last name (other ∷ users) user h e =
    go (same other.name name) (λ missing. find_user_last name users user missing e) h
  where
    go :
        (b : Bool)
        → (find_user name users ≡ none → find_user name (users ++ user ∷ []) ≡ some user)
        → (if b then some other else find_user name users) ≡ none
        → (if b then some other else find_user name (users ++ user ∷ [])) ≡ some user
    go true rest h = absurd (cc)
    go false rest h = rest h

split_secrets-append :
    (key seed : List ℕ)
    → length key ≡ 32
    → length seed ≡ 32
    → split_secrets (key ++ seed) ≡ ok (key, seed)
unfolding split_secrets
split_secrets-append key seed hk hs =
    rw
      (
        length-append key seed,
        hk,
        hs,
        sym (ap (λ n. take n (key ++ seed)) hk) ∙ take-append_length key seed,
        sym (ap (λ n. drop n (key ++ seed)) hk) ∙ drop-append_length key seed,
      )
      refl

module _ (meta : Store (List ℕ)) (crypto : Crypto) (passwords : Passwords) where
  users_of-sealed :
      (key : List ℕ) (epoch : ℕ) (table : meta.Table) (users : Users)
      → UsersAreValid users
      → length (encode_users users) < 2 ^ 64
      → users_of meta crypto passwords (
          sealed_as meta crypto passwords key epoch (store_users meta crypto passwords users table))
        ≡ ok users
  unfolding users_of
  users_of-sealed key epoch table users valid small =
      ap load_users (
        sealed-kept meta crypto passwords key epoch (store_users meta crypto passwords users table)
          users_key (apart _ _ _ _ (omega arith)) (apart _ _ _ _ (omega arith))
        ∙ meta.get-insert_same table users_key (encode_users users))
      ∙ load_users-encode users valid small

  unlock_lem :
      (key seed : List ℕ) (password : Text) (table : meta.Table) (found : UserRecord)
      (keyring : KeyringEntry)
      → length key ≡ 32
      → length seed ≡ 32
      → passwords.unwrap_key password keyring ≡ ok (key ++ seed)
      → verify_control meta crypto passwords key table ≡ ok tt
      → unlock meta crypto passwords password table found (some keyring)
        ≡ ok (record {
          name = found.name;
          uid = found.uid;
          gids = found.gids;
          key = key;
          sign_seed = seed;
        })
  unfolding unlock
  unlock_lem key seed password table found keyring hk hs unwraps verified =
      rw (unwraps, split_secrets-append key seed hk hs, verified) refl

  -- What a successful `add_user` seals.
  add_user-seals :
      (key seed : List ℕ) (name password : Text) (create_group : Bool)
      (table sealed changed : meta.Table) (users : Users) (keyring : KeyringEntry) (gids : List ℕ)
      → passwords.wrap_key password (key ++ seed) ≡ ok keyring
      → users_of meta crypto passwords table ≡ ok users
      → own_group meta crypto passwords name create_group table ≡ ok (gids, changed)
      → add_user meta crypto passwords key seed name password create_group table ≡ ok sealed
      → (find_user name users.users ≡ none)
        × (seal_control meta crypto passwords key
              (store_users meta crypto passwords (with_user users name gids keyring) changed)
            ≡ ok sealed)
  unfolding add_user
  add_user-seals key seed name password create_group table sealed changed users keyring gids wraps
        loads owns added =
      go (find_user name users.users) (rw (wraps, loads, owns) at added)
    where
      go :
          (found : Option UserRecord)
          → (if is_some found
              then err cannot_access
              else seal_control meta crypto passwords key
                  (store_users meta crypto passwords (with_user users name gids keyring) changed))
            ≡ ok sealed
          → (found ≡ none)
            × (seal_control meta crypto passwords key
                  (store_users meta crypto passwords (with_user users name gids keyring) changed)
                ≡ ok sealed)
      go none h = (refl, h)
      go (some user) h = absurd (cc)

  -- A user whom `add_user` added logs in with the password: `authenticate` on the sealed metadata gives
  -- the new user's session, with the new uid, the groups and both secrets. The new store of users is one
  -- that Rust holds, and unwrapping gives back what was wrapped.
  pub add_user-authenticate :
      (key seed : List ℕ) (name password : Text) (create_group : Bool)
      (table sealed changed : meta.Table) (users : Users) (keyring : KeyringEntry) (gids : List ℕ)
      → length key ≡ 32
      → length seed ≡ 32
      → passwords.wrap_key password (key ++ seed) ≡ ok keyring
      → passwords.unwrap_key password keyring ≡ ok (key ++ seed)
      → users_of meta crypto passwords table ≡ ok users
      → own_group meta crypto passwords name create_group table ≡ ok (gids, changed)
      → UsersAreValid (with_user users name gids keyring)
      → length (encode_users (with_user users name gids keyring)) < 2 ^ 64
      → add_user meta crypto passwords key seed name password create_group table ≡ ok sealed
      → authenticate meta crypto passwords name password sealed
        ≡ ok
            (record { name = name; uid = users.next_uid; gids = gids; key = key; sign_seed = seed })
  unfolding authenticate with_user unlock_found
  add_user-authenticate key seed name password create_group table sealed changed users keyring gids
        hk hs wraps unwraps loads owns valid small added =
      let after = with_user users name gids keyring in
      let user : UserRecord = record {
        name = name;
        uid = users.next_uid;
        frozen = false;
        gids = gids;
        keyring = some keyring;
      } in
      let (absent, seals) =
        add_user-seals key seed name password create_group table sealed changed users keyring gids
          wraps loads owns added in
      let (epoch, fits, is_sealed) =
        seal_control-sealed meta crypto passwords key
          (store_users meta crypto passwords after changed) sealed seals in
      let verified =
        seal_control-verify_control meta crypto passwords key
          (store_users meta crypto passwords after changed) sealed seals in
      let loaded =
        ap (users_of meta crypto passwords) is_sealed
        ∙ users_of-sealed key epoch changed after valid small in
      rw (loaded, find_user_last name users.users user absent (same_self name))
        (unlock_lem key seed password sealed user keyring hk hs unwraps verified)
