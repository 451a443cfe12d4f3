-- ===== src/Perm/Store/RoundTrip.antt =====
-- The blob of users is read back as it was written.
use arbordb.Common.{
  ℕ, ◌^◌, ◌<◌, ◌≡◌, refl, sym, subst, ◌∙◌, List, [], ◌∷◌, ◌++◌, append_assoc, append-nil, Option,
  none, some, Bool, true, false, not, ◌==◌, length, ok, All,
}
use arbordb.Common.Be.{be, small_mod}
use arbordb.Data.Utf8.{IsUtf8, from_utf8_lem}
use arbordb.Codec.Putters.{put_u32, put_bytes}
use arbordb.Codec.Reader.{new, u8, u32, array, bytes, repeat}
use arbordb.Codec.Reader.Reads.{
  Reads, Reads-bind, Reads-pure, Reads-u8, Reads-u32, Reads-bytes, Reads-array, Reads-along,
  Reads-repeat, concat_map, Ahead-new,
}
use arbordb.Perm.Store.{
  KeyringEntry, UserRecord, Users, put_gids, put_keyring, bit, put_user, put_users, encode_users,
  read_keyring, read_user, read_users, decode_users, load_users, salt_len, nonce_len,
}

-- What the Rust types hold.
abbrev pub KeyringIsValid : Option KeyringEntry → Type 0
KeyringIsValid none = Unit
KeyringIsValid (some entry) =
    (length entry.salt ≡ salt_len)
    × (length entry.nonce ≡ nonce_len)
    × (length entry.wrapped < 2 ^ 32)

abbrev pub UserIsValid : UserRecord → Type 0
UserIsValid user =
    IsUtf8 user.name
    × (length user.name < 2 ^ 32)
    × (user.uid < 2 ^ 32)
    × (length user.gids < 2 ^ 32)
    × All (λ gid. gid < 2 ^ 32) user.gids
    × KeyringIsValid user.keyring

abbrev pub UsersAreValid : Users → Type 0
UsersAreValid store =
    (store.next_uid < 2 ^ 32) × (length store.users < 2 ^ 32) × All UserIsValid store.users

-- A length-prefixed run.
abbrev pub run : List ℕ → List ℕ
run bs = be 4 (length bs) ++ bs

pub put_run : (buf bs : List ℕ) → length bs < 2 ^ 32 → put_bytes buf bs ≡ buf ++ run bs
unfolding put_bytes put_u32
put_run buf bs h = rw (small_mod (length bs) h) (append_assoc buf (be 4 (length bs)) bs)

keyring_bytes : Option KeyringEntry → List ℕ
keyring_bytes none = 0 ∷ []
keyring_bytes (some entry) = 1 ∷ (entry.salt ++ (entry.nonce ++ run entry.wrapped))

user_bytes : UserRecord → List ℕ
user_bytes user =
    run user.name
    ++ (be 4 user.uid
        ++ (bit user.frozen
            ∷ (be 4 (length user.gids)
                ++ (concat_map (be 4) user.gids ++ keyring_bytes user.keyring))))

put_gids_lem : (buf gids : List ℕ) → put_gids buf gids ≡ buf ++ concat_map (be 4) gids
unfolding put_gids put_u32
put_gids_lem buf [] = sym (append-nil buf)
put_gids_lem buf (gid ∷ gids) = put_gids_lem (buf ++ be 4 gid) gids ∙ simp append_assoc

put_keyring_lem :
    (buf : List ℕ) (keyring : Option KeyringEntry)
    → KeyringIsValid keyring
    → put_keyring buf keyring ≡ buf ++ keyring_bytes keyring
unfolding put_keyring keyring_bytes
put_keyring_lem buf none h = refl
put_keyring_lem buf (some entry) h =
    put_run (((buf ++ 1 ∷ []) ++ entry.salt) ++ entry.nonce) entry.wrapped h.2 ∙ simp append_assoc

put_user_lem :
    (buf : List ℕ) (user : UserRecord)
    → UserIsValid user
    → put_user buf user ≡ buf ++ user_bytes user
unfolding put_user user_bytes put_u32
put_user_lem buf user (utf8, name, uid, gids, each, keyring) =
    put_keyring_lem _ user.keyring keyring
    ∙ rw (small_mod (length user.gids) gids, put_gids_lem, put_run buf user.name name)
        (simp append_assoc)

put_users_lem :
    (buf : List ℕ) (users : List UserRecord)
    → All UserIsValid users
    → put_users buf users ≡ buf ++ concat_map user_bytes users
unfolding put_users
put_users_lem buf [] h = sym (append-nil buf)
put_users_lem buf (user ∷ users) h =
    put_users_lem (put_user buf user) users h.1 ∙ rw (put_user_lem buf user h.0) (simp append_assoc)

Reads-read_keyring :
    (keyring : Option KeyringEntry)
    → KeyringIsValid keyring
    → Reads read_keyring (keyring_bytes keyring) keyring
unfolding read_keyring keyring_bytes
Reads-read_keyring none h = Reads-bind u8 _ (0 ∷ []) [] 0 none (Reads-u8 0) (Reads-pure none)
Reads-read_keyring (some entry) h =
    Reads-bind u8 _ (1 ∷ []) (entry.salt ++ (entry.nonce ++ run entry.wrapped)) 1 (some entry)
      (Reads-u8 1)
      (Reads-bind (array salt_len) _ entry.salt (entry.nonce ++ run entry.wrapped) entry.salt
        (some entry)
        (subst (λ n. Reads (array n) entry.salt entry.salt) h.0 (Reads-array entry.salt))
        (Reads-bind (array nonce_len) _ entry.nonce (run entry.wrapped) entry.nonce (some entry)
          (subst (λ n. Reads (array n) entry.nonce entry.nonce) h.1 (Reads-array entry.nonce))
          (Reads-along _ (some entry) (append-nil (run entry.wrapped)) (
            Reads-bind bytes _ (run entry.wrapped) [] entry.wrapped (some entry)
              (Reads-bytes entry.wrapped h.2) (Reads-pure (some entry))))))

Reads-gids :
    (gids : List ℕ) → All (λ gid. gid < 2 ^ 32) gids → All (λ gid. Reads u32 (be 4 gid) gid) gids
Reads-gids [] h = tt
Reads-gids (gid ∷ gids) h = (Reads-u32 gid h.0, Reads-gids gids h.1)

not_frozen : (b : Bool) → not (bit b == 0) ≡ b
not_frozen false = refl
not_frozen true = refl

Reads-read_user : (user : UserRecord) → UserIsValid user → Reads read_user (user_bytes user) user
unfolding read_user user_bytes
Reads-read_user user (utf8, name, uid, gids, each, keyring) =
    Reads-bind bytes _ (run user.name) _ user.name user (Reads-bytes user.name name) (
      rw (from_utf8_lem user.name utf8) (
        Reads-bind u32 _ (be 4 user.uid) _ user.uid user (Reads-u32 user.uid uid) (
          Reads-bind u8 _ (bit user.frozen ∷ []) _ (bit user.frozen) user
            (Reads-u8 (bit user.frozen))
            (Reads-bind u32 _ (be 4 (length user.gids)) _ (length user.gids) user
              (Reads-u32 (length user.gids) gids)
              (Reads-bind (repeat u32 (length user.gids)) _ (concat_map (be 4) user.gids)
                (keyring_bytes user.keyring) user.gids user
                (Reads-repeat u32 (be 4) user.gids (Reads-gids user.gids each))
                (Reads-along _ user (append-nil (keyring_bytes user.keyring)) (
                  Reads-bind read_keyring _ (keyring_bytes user.keyring) [] user.keyring user
                    (Reads-read_keyring user.keyring keyring)
                    (rw (not_frozen user.frozen) (Reads-pure user)))))))))

Reads-each_user :
    (users : List UserRecord)
    → All UserIsValid users
    → All (λ user. Reads read_user (user_bytes user) user) users
Reads-each_user [] h = tt
Reads-each_user (user ∷ users) h = (Reads-read_user user h.0, Reads-each_user users h.1)

users_bytes : Users → List ℕ
users_bytes store =
    be 4 store.next_uid ++ (be 4 (length store.users) ++ concat_map user_bytes store.users)

encode_users_lem : (store : Users) → UsersAreValid store → encode_users store ≡ users_bytes store
unfolding encode_users users_bytes put_u32
encode_users_lem store valid =
    put_users_lem _ store.users valid.2
    ∙ rw (small_mod (length store.users) valid.1) (simp append_assoc)

Reads-read_users :
    (store : Users) → UsersAreValid store → Reads read_users (users_bytes store) store
unfolding read_users users_bytes
Reads-read_users store valid =
    Reads-bind u32 _ (be 4 store.next_uid) _ store.next_uid store (Reads-u32 store.next_uid valid.0)
      (Reads-bind u32 _ (be 4 (length store.users)) _ (length store.users) store
        (Reads-u32 (length store.users) valid.1)
        (Reads-along _ store (append-nil (concat_map user_bytes store.users)) (
          Reads-bind (repeat read_user (length store.users)) _ (concat_map user_bytes store.users)
            [] store.users store
            (Reads-repeat read_user user_bytes store.users (Reads-each_user store.users valid.2))
            (Reads-pure store))))

decode_users-encode :
    (store : Users) (more : List ℕ)
    → UsersAreValid store
    → length (encode_users store ++ more) < 2 ^ 64
    → decode_users (encode_users store ++ more) ≡ ok store
unfolding decode_users
decode_users-encode store more valid small =
    let e = encode_users_lem store valid in
    let read =
      (Reads-read_users store valid).at (new (users_bytes store ++ more)) more (
        Ahead-new (users_bytes store ++ more) (subst (λ b. length (b ++ more) < 2 ^ 64) e small)) in
    rw (e, decode_users, read)

-- The users are loaded from the blob that they were stored as, when names are valid UTF-8 and lengths
-- and ids are below 2³².
pub load_users-encode :
    (store : Users)
    → UsersAreValid store
    → length (encode_users store) < 2 ^ 64
    → load_users (some (encode_users store)) ≡ ok store
unfolding load_users
load_users-encode store valid small =
    let e = append-nil (encode_users store) in
    rw e at (decode_users-encode store [] valid (rw e small))
