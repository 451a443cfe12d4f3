-- ===== src/Perm/Store.antt =====
-- crates/arbordb/src/perm/store.rs: the users and the groups of a protected database, with the blobs
-- that the metadata table holds them in.
pub mod RoundTrip
pub mod GroupRecords
use arbordb.Common.{
  ℕ, zero, suc, ◌%◌, ◌^◌, List, [], ◌∷◌, ◌++◌, Option, none, some, Bool, true, false, not, ◌==◌,
  length, Result, ok, err,
}
use arbordb.Data.Utf8.{Text, from_utf8}
use arbordb.Codec.Putters.{put_u32, put_bytes}
use arbordb.Codec.Reader.{new, Decoder, pure, lift, ◌>>=◌, u8, u32, array, bytes, repeat}

abbrev pub salt_len : ℕ
salt_len = 16

abbrev pub nonce_len : ℕ
nonce_len = 24

pub record KeyringEntry : Type 0 where
  pub salt : List ℕ
  pub nonce : List ℕ
  pub wrapped : List ℕ

pub record UserRecord : Type 0 where
  pub name : Text
  pub uid : ℕ
  pub frozen : Bool
  pub gids : List ℕ
  pub keyring : Option KeyringEntry

pub record Users : Type 0 where
  pub next_uid : ℕ
  pub users : List UserRecord

pub record GroupRecord : Type 0 where
  pub name : Text
  pub gid : ℕ

pub record Groups : Type 0 where
  pub next_gid : ℕ
  pub groups : List GroupRecord

unfoldable pub put_gids : List ℕ → List ℕ → List ℕ
put_gids buf [] = buf
put_gids buf (gid ∷ gids) = put_gids (put_u32 buf gid) gids

-- The `match` of `Users::encode`.
unfoldable pub put_keyring : List ℕ → Option KeyringEntry → List ℕ
put_keyring buf none = buf ++ 0 ∷ []
put_keyring buf (some entry) =
    put_bytes (((buf ++ 1 ∷ []) ++ entry.salt) ++ entry.nonce) entry.wrapped

-- `b as u8`
abbrev pub bit : Bool → ℕ
bit false = 0
bit true = 1

-- One round of the loop of `Users::encode`.
unfoldable pub put_user : List ℕ → UserRecord → List ℕ
unfolding put_gids put_keyring
put_user buf user =
    let head = put_u32 (put_bytes buf user.name) user.uid ++ bit user.frozen ∷ [] in
    put_keyring (put_gids (put_u32 head (length user.gids % 2 ^ 32)) user.gids) user.keyring

unfoldable pub put_users : List ℕ → List UserRecord → List ℕ
unfolding put_user
put_users buf [] = buf
put_users buf (user ∷ users) = put_users (put_user buf user) users

unfoldable pub encode_users : Users → List ℕ
unfolding put_users
encode_users store =
    put_users (put_u32 (put_u32 [] store.next_uid) (length store.users % 2 ^ 32)) store.users

-- The `match` of `Users::decode`, on the tag that it reads.
unfoldable pub read_entry : ℕ → Decoder (Option KeyringEntry)
read_entry zero = pure none
read_entry (suc _) = do
  salt ← array salt_len
  nonce ← array nonce_len
  wrapped ← bytes
  pure (some (record { salt = salt; nonce = nonce; wrapped = wrapped }))

unfoldable pub read_keyring : Decoder (Option KeyringEntry)
unfolding read_entry
read_keyring = do tag ← u8; read_entry tag

unfoldable pub read_user : Decoder UserRecord
unfolding read_keyring
read_user = do
  raw ← bytes
  name ← lift (from_utf8 raw)
  uid ← u32
  frozen ← u8
  gid_count ← u32
  gids ← repeat u32 gid_count
  keyring ← read_keyring
  pure (record {
    name = name;
    uid = uid;
    frozen = not (frozen == 0);
    gids = gids;
    keyring = keyring;
  })

unfoldable pub read_users : Decoder Users
unfolding read_user
read_users = do
  next_uid ← u32
  count ← u32
  users ← repeat read_user count
  pure (record { next_uid = next_uid; users = users })

-- What is left of the blob is ignored.
unfoldable pub decode_users : List ℕ → Result Users
unfolding read_users
decode_users blob = elim (read_users (new blob)) [ ok (users, r) ↦ ok users | err e ↦ err e ]

-- What `load` makes of the blob in the metadata table.
unfoldable pub load_users : Option (List ℕ) → Result Users
unfolding decode_users
load_users none = ok (record { next_uid = 2; users = [] })
load_users (some blob) = decode_users blob

unfoldable pub put_group_records : List ℕ → List GroupRecord → List ℕ
put_group_records buf [] = buf
put_group_records buf (group ∷ groups) =
    put_group_records (put_u32 (put_bytes buf group.name) group.gid) groups

unfoldable pub encode_groups : Groups → List ℕ
unfolding put_group_records
encode_groups store =
    put_group_records (put_u32 (put_u32 [] store.next_gid) (length store.groups % 2 ^ 32))
      store.groups

unfoldable pub read_group : Decoder GroupRecord
read_group = do
  raw ← bytes
  name ← lift (from_utf8 raw)
  gid ← u32
  pure (record { name = name; gid = gid })

unfoldable pub read_group_records : Decoder Groups
unfolding read_group
read_group_records = do
  next_gid ← u32
  count ← u32
  groups ← repeat read_group count
  pure (record { next_gid = next_gid; groups = groups })

unfoldable pub decode_groups : List ℕ → Result Groups
unfolding read_group_records
decode_groups blob = elim (read_group_records (new blob)) [
  | ok (groups, r) ↦ ok groups
  | err e ↦ err e
]

unfoldable pub load_groups : Option (List ℕ) → Result Groups
unfolding decode_groups
load_groups none = ok (record { next_gid = 2; groups = [] })
load_groups (some blob) = decode_groups blob
