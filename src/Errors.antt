-- ===== src/Errors.antt =====
-- The typed errors of app/core/errors.py and `Unauthorized` of app/api/deps.py, and the result of a
-- service call that may raise one. The errors built on the spot, `AppError("VALIDATION_ERROR", …)`
-- and the like, have a constructor each. Messages are left out.
use cofoundaz_api.Prelude.{Bool, Option, none, some, if◌then◌else◌, ◌≡◌, refl, ◌⊎◌, inl, inr, ◌≢◌}

pub data AppError : Type 0 where
  email_taken weak_password password_too_long invalid_credentials account_locked : AppError
  token_invalid mfa_invalid_code journal_not_configured journal_content_unreadable : AppError
  feature_not_enabled forbidden not_found onboarding_incomplete : AppError
  onboarding_already_complete invite_email_mismatch already_member : AppError
  canvas_version_conflict document_version_conflict suggestion_not_pending : AppError
  signature_not_active email_not_verified recommendation_resolved dependency_cycle : AppError
  unauthorized validation_error invalid_answer assessment_incomplete : AppError
  assessment_conflict : AppError

-- What a call gives: it raised an error, or it returned a value.
pub data Result {ℓ} (A : Type ℓ) : Type ℓ where
  err : AppError → Result A
  ok : A → Result A

-- `if c: raise error`
abbrev pub raise_if : Bool → AppError → Result (Unit {0})
raise_if c error = if c then err error else ok tt

-- `if found is None: raise error`
abbrev pub or_raise {ℓ} : {A : Type ℓ} → Option A → AppError → Result A
or_raise none error = err error
or_raise (some found) error = ok found

module _ {ℓ κ} {A : Type ℓ} {B : Type κ} where
  infixl 5 ◌>>=◌
  -- The rest of a body after a call that may raise.
  abbrev pub ◌>>=◌ : Result A → (A → Result B) → Result B
  err error >>= rest = err error
  ok value >>= rest = rest value

  -- A body that returns has returned from its call, and from its rest.
  pub >>=-eq-ok :
      (call : Result A) (rest : A → Result B) {result : B}
      → (call >>= rest) ≡ ok result
      → (value : A) × (call ≡ ok value) × (rest value ≡ ok result)
  >>=-eq-ok (err error) rest returned = cc
  >>=-eq-ok (ok value) rest returned = (value, refl, returned)

infixl 5 ◌>>◌
-- The rest of a body after a check.
abbrev pub ◌>>◌ {κ} : {B : Type κ} → Result (Unit {0}) → Result B → Result B
check >> rest = check >>= (λ passed. rest)

module _ {ℓ} {A : Type ℓ} where
  pub Result-cases :
      (call : Result A)
      → ((value : A) × (call ≡ ok value)) ⊎ ((error : AppError) × (call ≡ err error))
  Result-cases (err error) = inr (error, refl)
  Result-cases (ok value) = inl (value, refl)

  pub err-ne-ok : {error : AppError} {value : A} → err error ≢ ok value
  err-ne-ok = cc
