-- ===== src/Base/Outcome.antt =====
-- Results of fallible Go functions: `ok` for a nil error, `err` with the error's kind.

-- What went wrong, as far as the callers tell the cases apart.
pub data Error : Type 0 where
  database_error : Error
  not_found : Error
  json_error : Error
  unknown_action : Error
  not_running : Error
  no_inbound : Error
  wrong_type : Error
  core_error : Error
  panicked : Error
  empty_name : Error
  empty_password : Error
  wrong_login : Error
  empty_slice : Error
  no_default : Error
  bad_number : Error
  no_file : Error
  unknown_object : Error
  invalid : Error

pub data Outcome {ℓ} (A : Type ℓ) : Type ℓ where
  ok : A → Outcome A
  err : Error → Outcome A

infixl 5 ◌>>=◌ ◌>>◌
abbrev pub ◌>>=◌ {ℓ κ} : {A : Type ℓ} {B : Type κ} → Outcome A → (A → Outcome B) → Outcome B
ok a >>= f = f a
err e >>= f = err e

abbrev pub ◌>>◌ {ℓ} : {B : Type ℓ} → Outcome (Unit {0}) → Outcome B → Outcome B
m >> k = m >>= λ _. k
