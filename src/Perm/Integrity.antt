-- ===== src/Perm/Integrity.antt =====
-- crates/arbordb/src/perm/integrity.rs: the tags that bind an a-node's entry and its ACL, and the control
-- plane. BLAKE3 and Ed25519 are parameters; what a hasher absorbs is one string of bytes.
pub mod Binding
use Prim.Native.Nat.{bit_or, bit_xor}
use arbordb.Common.{
  ℕ, ◌%◌, ◌^◌, List, [], ◌∷◌, ◌++◌, Bool, true, false, ◌==◌, if◌then◌else◌, length,
}
use arbordb.Common.Be.{be}
use arbordb.Data.Utf8.{Text}
use arbordb.Key.{AKey, into_bytes}

pub record Crypto : Type 0 where
  pub keyed_hash : List ℕ → List ℕ → List ℕ
  pub hash : List ℕ → List ℕ
  pub sign : List ℕ → List ℕ → List ℕ
  pub verify : List ℕ → List ℕ → List ℕ → Bool

abbrev pub domain_value : ℕ
domain_value = 1

abbrev pub domain_control : ℕ
domain_control = 2

-- What `field` absorbs; the length is cast to `u64`.
unfoldable pub field : List ℕ → List ℕ
field bytes = be 8 (length bytes % 2 ^ 64) ++ bytes

unfoldable pub absorb_value : Text → AKey → List ℕ → List ℕ → List ℕ
unfolding field into_bytes
absorb_value table akey blob acl =
    domain_value ∷ (field table ++ (into_bytes akey ++ (field blob ++ field acl)))

unfoldable pub absorb_control : ℕ → List ℕ → List ℕ → List ℕ → List ℕ
unfolding field
absorb_control epoch users groups pubkey =
    domain_control ∷ (be 8 epoch ++ (field users ++ (field groups ++ field pubkey)))

-- The bits in which the bytes differ, all together.
unfoldable pub differing : ℕ → List ℕ → List ℕ → ℕ
differing diff [] ys = diff
differing diff (x ∷ xs) [] = diff
differing diff (x ∷ xs) (y ∷ ys) = differing (bit_or diff (bit_xor x y)) xs ys

unfoldable pub ct_eq : List ℕ → List ℕ → Bool
unfolding differing
ct_eq a b = if length a == length b then differing 0 a b == 0 else false

module _ (crypto : Crypto) where
  unfoldable pub mac_value : List ℕ → Text → AKey → List ℕ → List ℕ → List ℕ
  unfolding absorb_value
  mac_value key table akey blob acl = crypto.keyed_hash key (absorb_value table akey blob acl)

  unfoldable pub value_digest : Text → AKey → List ℕ → List ℕ → List ℕ
  unfolding absorb_value
  value_digest table akey blob acl = crypto.hash (absorb_value table akey blob acl)

  unfoldable pub sign_value : List ℕ → Text → AKey → List ℕ → List ℕ → List ℕ
  unfolding value_digest
  sign_value sign_seed table akey blob acl =
      crypto.sign sign_seed (value_digest table akey blob acl)

  unfoldable pub verify_value : List ℕ → Text → AKey → List ℕ → List ℕ → List ℕ → Bool
  unfolding value_digest
  verify_value pubkey table akey blob acl sig =
      crypto.verify pubkey (value_digest table akey blob acl) sig

  unfoldable pub mac_control : List ℕ → ℕ → List ℕ → List ℕ → List ℕ → List ℕ
  unfolding absorb_control
  mac_control key epoch users groups pubkey =
      crypto.keyed_hash key (absorb_control epoch users groups pubkey)
