-- ===== src/Common/Errors.antt =====
-- `AdbResult` of crates/arbordb/src/error.rs, with the kinds of error that the modelled code returns;
-- the message of an error is left out.
-- `panicked` is a Rust panic. `out_of_fuel` is no error of the source: a bounded recursion of the
-- model was given too little.
pub data Error : Type 0 where
  corrupt : Error
  schema_mismatch : Error
  invalid_path : Error
  bad_key : Error
  permission_denied : Error
  cannot_access : Error
  value_not_found : Error
  tampered : Error
  unique_violation : Error
  authentication_failed : Error
  database_protected : Error
  feature_required : Error
  frozen_user : Error
  panicked : Error
  out_of_fuel : Error

pub data Result {ℓ} (A : Type ℓ) : Type ℓ where
  err : Error → Result A
  ok : A → Result A

infixl 5 ◌>>=◌
-- `?`: the first error is the error of the whole.
abbrev pub ◌>>=◌ {ℓ κ} : {A : Type ℓ} {B : Type κ} → Result A → (A → Result B) → Result B
err problem >>= next = err problem
ok found >>= next = next found
