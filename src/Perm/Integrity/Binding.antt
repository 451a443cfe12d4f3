-- ===== src/Perm/Integrity/Binding.antt =====
-- No two different subjects are bound by the same bytes.
use arbordb.Common.{
  ℕ, ◌%◌, ◌^◌, ◌<◌, ◌≡◌, sym, ap, ◌∙◌, List, [], ◌∷◌, ◌++◌, append_assoc, append-nil, append-cancel,
  length, arith,
}
use arbordb.Common.Be.{be, from_be, length-be, from_be-be}
use arbordb.Data.Utf8.{Text}
use arbordb.Key.{AKey, IsAKey, into_bytes}
use arbordb.Perm.Integrity.{field, absorb_value, absorb_control}

be-injective : (n a b : ℕ) → a < 256 ^ n → b < 256 ^ n → be n a ≡ be n b → a ≡ b
be-injective n a b ha hb e = sym (from_be-be n a ha) ∙ ap from_be e ∙ from_be-be n b hb

be-cancel :
    (n a b : ℕ) (rest more : List ℕ)
    → a < 256 ^ n
    → b < 256 ^ n
    → be n a ++ rest ≡ be n b ++ more
    → (a ≡ b) × (rest ≡ more)
be-cancel n a b rest more ha hb e =
    let (same, back) =
      append-cancel (be n a) (be n b) rest more (length-be n a ∙ sym (length-be n b)) e in
    (be-injective n a b ha hb same, back)

field-cancel :
    (a b rest more : List ℕ)
    → length a < 2 ^ 64
    → length b < 2 ^ 64
    → field a ++ rest ≡ field b ++ more
    → (a ≡ b) × (rest ≡ more)
unfolding field
field-cancel a b rest more ha hb e =
    let (sizes, back) =
      be-cancel 8 (length a % 2 ^ 64) (length b % 2 ^ 64) (a ++ rest) (b ++ more) (omega arith)
        (omega arith)
        (sym (append_assoc (be 8 (length a % 2 ^ 64)) a rest)
          ∙ e
          ∙ append_assoc (be 8 (length b % 2 ^ 64)) b more) in
    append-cancel a b rest more (omega arith) back

field-injective : (a b : List ℕ) → length a < 2 ^ 64 → length b < 2 ^ 64 → field a ≡ field b → a ≡ b
field-injective a b ha hb e =
    (field-cancel a b [] [] ha hb (append-nil (field a) ∙ e ∙ sym (append-nil (field b)))).0

-- The bytes under a value's tag determine the table, the a-node, its entry and its ACL, when the
-- a-nodes are 128-bit keys and the lengths are below 2⁶⁴.
pub absorb_value-injective :
    (table other : Text) (akey key : AKey) (blob entry acl grants : List ℕ)
    → IsAKey akey
    → IsAKey key
    → (length table < 2 ^ 64) × (length blob < 2 ^ 64) × (length acl < 2 ^ 64)
    → (length other < 2 ^ 64) × (length entry < 2 ^ 64) × (length grants < 2 ^ 64)
    → absorb_value table akey blob acl ≡ absorb_value other key entry grants
    → (table ≡ other) × (akey ≡ key) × (blob ≡ entry) × (acl ≡ grants)
unfolding absorb_value into_bytes
absorb_value-injective table other akey key blob entry acl grants ka kb sa sb e =
    let (tables, e1) =
      field-cancel table other (be 16 akey ++ (field blob ++ field acl))
        (be 16 key ++ (field entry ++ field grants)) sa.0 sb.0 (ap tail e) in
    let (keys, e2) =
      be-cancel 16 akey key (field blob ++ field acl) (field entry ++ field grants) ka kb e1 in
    let (blobs, e3) = field-cancel blob entry (field acl) (field grants) sa.1 sb.1 e2 in
    (tables, keys, blobs, field-injective acl grants sa.2 sb.2 e3)
  where
    tail : List ℕ → List ℕ
    tail [] = []
    tail (x ∷ xs) = xs

-- The bytes under a control tag determine the epoch, the users, the groups and the public key.
pub absorb_control-injective :
    (epoch later : ℕ) (users people groups teams pubkey other : List ℕ)
    → (epoch < 2 ^ 64)
      × (length users < 2 ^ 64)
      × (length groups < 2 ^ 64)
      × (length pubkey < 2 ^ 64)
    → (later < 2 ^ 64)
      × (length people < 2 ^ 64)
      × (length teams < 2 ^ 64)
      × (length other < 2 ^ 64)
    → absorb_control epoch users groups pubkey ≡ absorb_control later people teams other
    → (epoch ≡ later) × (users ≡ people) × (groups ≡ teams) × (pubkey ≡ other)
unfolding absorb_control
absorb_control-injective epoch later users people groups teams pubkey other sa sb e =
    let (epochs, e1) =
      be-cancel 8 epoch later (field users ++ (field groups ++ field pubkey))
        (field people ++ (field teams ++ field other)) sa.0 sb.0 (ap tail e) in
    let (all_users, e2) =
      field-cancel users people (field groups ++ field pubkey) (field teams ++ field other) sa.1
        sb.1 e1 in
    let (all_groups, e3) = field-cancel groups teams (field pubkey) (field other) sa.2 sb.2 e2 in
    (epochs, all_users, all_groups, field-injective pubkey other sa.3 sb.3 e3)
  where
    tail : List ℕ → List ℕ
    tail [] = []
    tail (x ∷ xs) = xs
