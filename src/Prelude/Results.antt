-- ===== src/Prelude/Results.antt =====
-- errors.py: the exceptions that the modelled code raises, and results that may be one of them.
-- Of a message only the choice is kept that the code makes by it, as a reason.
use mathlib.Core.Path.{◌≡◌, refl}
use mathlib.Core.Logic.{◌⊎◌, inl, inr}

pub data Reason : Type 0 where
  empty_name control_characters invalid_vlan unsupported_interface malformed_suffix : Reason
  not_physical unknown_command unknown_action missing_interface missing_value : Reason
  empty_description description_too_long description_characters : Reason
  no_device unknown_state invalid_policy unmanaged : Reason
  unknown_session in_progress immutable not_ready unexpected_value : Reason

-- `value_error` is Python's ValueError, which is no SwitchOpsError.
pub data Error : Type 0 where
  command_not_allowed : Reason → Error
  protected_interface write_actions_disabled credentials_missing host_key_changed : Error
  switchops_error value_error other_error : Error

-- A call returns or raises.
pub data Result {ℓ} (A : Type ℓ) : Type ℓ where
  ok : A → Result A
  err : Error → Result A

module _ {ℓ} {A : Type ℓ} where
  pub Result-cases :
      (answer : Result A) → ((a : A) × (answer ≡ ok a)) ⊎ ((e : Error) × (answer ≡ err e))
  Result-cases (ok a) = inl (a, refl)
  Result-cases (err e) = inr (e, refl)

  module _ {κ} {B : Type κ} where
    -- A statement, and the statements behind it.
    infixl 5 ◌>>=◌
    abbrev pub ◌>>=◌ : Result A → (A → Result B) → Result B
    ok returned >>= rest = rest returned
    err raised >>= rest = err raised

    -- If the whole returns then the first statement has returned, and so have the others.
    pub >>=-eq-ok :
        (first : Result A) (rest : A → Result B) {b : B}
        → first >>= rest ≡ ok b
        → (a : A) × (first ≡ ok a) × (rest a ≡ ok b)
    >>=-eq-ok (ok a) rest whole = (a, refl, whole)
    >>=-eq-ok (err e) rest whole = cc
