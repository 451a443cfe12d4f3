-- ===== src/Perm/Admin/Control.antt =====
-- The control plane that was sealed is verified.
use Prim.Native.Nat.{bit_xor, bit_xor-bitwise, bit_or-bitwise, digits, differ, ◌/◌}
use arbordb.Common.{
  ℕ, zero, suc, ◌+◌, ◌%◌, ◌^◌, ◌<◌, ◌≤◌, ◌≡◌, ◌≢◌, refl, ap, ◌∙◌, List, [], ◌∷◌, some, true, length,
  Result, ok, err, ◌>>=◌, arith,
}
use arbordb.Common.Be.{be, from_be, length-be, from_be-be}
use arbordb.Perm.Admin.{
  Passwords, read_epoch, control_tag, seal_control, verify_control, epoch_key, control_mac_key,
  users_key, groups_key, pubkey_key, stored_epoch, check_tag,
}
use arbordb.Perm.Integrity.{Crypto, ct_eq, differing}
use arbordb.Store.{Store}

differ_self : (x : ℕ) → differ x x ≡ 0
differ_self zero = refl
differ_self (suc x) = differ_self x

digits_self : (n a : ℕ) → a ≤ n → digits (λ b. b) differ n a a ≡ 0
digits_self zero a h = omega arith
digits_self (suc n) zero h = refl
digits_self (suc n) (suc a) h =
    rw (digits_self n (suc a / 2) (omega arith), differ_self (suc a % 2)) refl

xor_self : (x : ℕ) → bit_xor x x ≡ 0
xor_self x = bit_xor-bitwise x x ∙ digits_self x x (omega arith)

differing_self : (xs : List ℕ) → differing 0 xs xs ≡ 0
unfolding differing
differing_self [] = refl
differing_self (x ∷ xs) = rw (xor_self x, bit_or-bitwise 0 0) (differing_self xs)

pub ct_eq_self : (xs : List ℕ) → ct_eq xs xs ≡ true
unfolding ct_eq
ct_eq_self xs = rw (differing_self xs) (ground arith)

stored_epoch-some :
    (bytes : List ℕ) → length bytes ≡ 8 → stored_epoch (some bytes) ≡ ok (from_be bytes)
unfolding stored_epoch
stored_epoch-some bytes h = rw h refl

stored_epoch-be : (epoch : ℕ) → epoch < 2 ^ 64 → stored_epoch (some (be 8 epoch)) ≡ ok epoch
stored_epoch-be epoch h =
    stored_epoch-some (be 8 epoch) (length-be 8 epoch) ∙ ap ok (from_be-be 8 epoch (omega arith))

first_of : List ℕ → ℕ
first_of [] = 0
first_of (x ∷ xs) = x

-- Two keys of the metadata are apart by their first byte.
pub apart : (x y : ℕ) (xs ys : List ℕ) → x ≢ y → x ∷ xs ≢ y ∷ ys
unfolding first_of
apart x y xs ys h e = h (ap first_of e)

check_tag_self : (tag : List ℕ) → check_tag tag (some tag) ≡ ok tt
unfolding check_tag
check_tag_self tag = rw (ct_eq_self tag) refl

module _ (meta : Store (List ℕ)) (crypto : Crypto) (passwords : Passwords) where
  kept :
      (table : meta.Table) (k tag epoch : List ℕ)
      → control_mac_key ≢ k
      → epoch_key ≢ k
      → meta.get (meta.insert control_mac_key tag (meta.insert epoch_key epoch table)) k
        ≡ meta.get table k
  kept table k tag epoch a b =
      meta.get-insert_other (meta.insert epoch_key epoch table) control_mac_key k tag a
      ∙ meta.get-insert_other table epoch_key k epoch b

  abbrev pub sealed_as : List ℕ → ℕ → meta.Table → meta.Table
  sealed_as key epoch table =
      meta.insert control_mac_key (control_tag meta crypto passwords table key epoch)
        (meta.insert epoch_key (be 8 epoch) table)

  -- What the tag covers is not changed by sealing.
  pub sealed-kept :
      (key : List ℕ) (epoch : ℕ) (table : meta.Table) (k : List ℕ)
      → control_mac_key ≢ k
      → epoch_key ≢ k
      → meta.get (sealed_as key epoch table) k ≡ meta.get table k
  sealed-kept key epoch table k a b = kept table k _ _ a b

  sealed-epoch :
      (key : List ℕ) (epoch : ℕ) (table : meta.Table)
      → epoch < 2 ^ 64
      → read_epoch meta crypto passwords (sealed_as key epoch table) ≡ ok epoch
  unfolding read_epoch
  sealed-epoch key epoch table h =
      ap stored_epoch (
        meta.get-insert_other (meta.insert epoch_key (be 8 epoch) table) control_mac_key epoch_key
          (control_tag meta crypto passwords table key epoch) (apart _ _ _ _ (omega arith))
        ∙ meta.get-insert_same table epoch_key (be 8 epoch))
      ∙ stored_epoch-be epoch h

  sealed-tag :
      (key : List ℕ) (epoch : ℕ) (table : meta.Table)
      → control_tag meta crypto passwords (sealed_as key epoch table) key epoch
        ≡ control_tag meta crypto passwords table key epoch
  unfolding control_tag
  sealed-tag key epoch table =
      rw
        (
          sealed-kept key epoch table users_key (apart _ _ _ _ (omega arith))
              (apart _ _ _ _ (omega arith)),
          sealed-kept key epoch table groups_key (apart _ _ _ _ (omega arith))
              (apart _ _ _ _ (omega arith)),
          sealed-kept key epoch table pubkey_key (apart _ _ _ _ (omega arith))
              (apart _ _ _ _ (omega arith)),
        )
        refl

  sealed-mac :
      (key : List ℕ) (epoch : ℕ) (table : meta.Table)
      → meta.get (sealed_as key epoch table) control_mac_key
        ≡ some (control_tag meta crypto passwords table key epoch)
  sealed-mac key epoch table =
      meta.get-insert_same (meta.insert epoch_key (be 8 epoch) table) control_mac_key _

  sealed-verifies :
      (key : List ℕ) (epoch : ℕ) (table : meta.Table)
      → epoch < 2 ^ 64
      → verify_control meta crypto passwords key (sealed_as key epoch table) ≡ ok tt
  unfolding verify_control
  sealed-verifies key epoch table h =
      rw (sealed-epoch key epoch table h, sealed-mac key epoch table, sealed-tag key epoch table)
        (check_tag_self (control_tag meta crypto passwords table key epoch))

  -- Sealing the control plane gives it the next epoch.
  pub seal_control-sealed :
      (key : List ℕ) (table sealed : meta.Table)
      → seal_control meta crypto passwords key table ≡ ok sealed
      → (epoch : ℕ) × (epoch < 2 ^ 64) × (sealed ≡ sealed_as key epoch table)
  unfolding seal_control
  seal_control-sealed key table sealed h = go (read_epoch meta crypto passwords table) h
    where
      next : Result ℕ → Result meta.Table
      next r = do
        last ← r
        let epoch = (last + 1) % 2 ^ 64
        ok (
            meta.insert control_mac_key (control_tag meta crypto passwords table key epoch)
              (meta.insert epoch_key (be 8 epoch) table))

      go :
          (r : Result ℕ)
          → next r ≡ ok sealed
          → (epoch : ℕ) × (epoch < 2 ^ 64) × (sealed ≡ sealed_as key epoch table)
      go (err e) h = absurd (cc)
      go (ok last) h = ((last + 1) % 2 ^ 64, omega arith, cc)

  pub seal_control-verify_control :
      (key : List ℕ) (table sealed : meta.Table)
      → seal_control meta crypto passwords key table ≡ ok sealed
      → verify_control meta crypto passwords key sealed ≡ ok tt
  seal_control-verify_control key table sealed h =
      let (epoch, small, same) = seal_control-sealed key table sealed h in
      rw same (sealed-verifies key epoch table small)
