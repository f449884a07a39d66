-- ===== src/Result.antt =====
-- The exceptions of the program, and the value of a function that may raise one.
-- `invalid_bet` to `invalid_cursor` are the program's exception classes (app/domain, app/repositories,
-- app/services, app/infra, app/api); the rest are those of Python and of the libraries that it lets through.
use theclub_api.Prelude.{◌≡◌, refl, Bool, true, false, Option, none, some}

pub data Error : Type 0 where
  -- InvalidBetError, InsufficientFundsError, DataIntegrityError
  invalid_bet insufficient_funds data_integrity : Error
  -- EmailAlreadyExistsError, InvalidCredentialsError, UserSuspendedError, RefreshTokenReusedError
  email_exists invalid_credentials user_suspended refresh_reused : Error
  -- TokenExpiredError, InvalidTokenError
  token_expired invalid_token : Error
  -- IdempotencyKeyConflictError, IdempotencyInProgressError
  key_conflict in_progress : Error
  -- InvalidCursorError
  invalid_cursor : Error
  -- FastAPI's RequestValidationError
  request_invalid : Error
  -- ValueError, KeyError, TypeError, AssertionError, pydantic's ValidationError
  value_error key_error type_error assertion_error validation_error : Error
  -- SQLAlchemy's IntegrityError, DataError, NoResultFound and MultipleResultsFound
  integrity_error data_error no_result multiple_results : Error
  -- argon2's InvalidHashError and VerificationError
  argon2_error : Error
  -- no exception of the program: a loop of the model ran out of fuel
  out_of_fuel : Error

pub data Result {ℓ} (A : Type ℓ) : Type ℓ where
  ok : A → Result A
  err : Error → Result A

infixl 5 ◌>>=◌ ◌>>◌
abbrev pub ◌>>=◌ {ℓ κ} : {A : Type ℓ} {B : Type κ} → Result A → (A → Result B) → Result B
err raised >>= next = err raised
ok value >>= next = next value

abbrev pub ◌>>◌ {ℓ κ} : {A : Type ℓ} {B : Type κ} → Result A → Result B → Result B
m >> k = m >>= λ _. k

-- `if b: raise e`
abbrev pub raise_if : Bool → Error → Result (Unit {0})
raise_if true e = err e
raise_if false e = ok tt

abbrev pub or_raise {ℓ} : {A : Type ℓ} → Option A → Error → Result A
or_raise none e = err e
or_raise (some a) e = ok a

-- A chain that returned had a first part that returned.
pub >>=-eq-ok {ℓ κ} :
    {A : Type ℓ} {B : Type κ} {last : B} (first : Result A) (next : A → Result B)
    → (first >>= next) ≡ ok last
    → (value : A) × (first ≡ ok value) × (next value ≡ ok last)
>>=-eq-ok (err raised) next e = cc
>>=-eq-ok (ok value) next e = (value, refl, e)

pub or_raise-eq-ok {ℓ} :
    {A : Type ℓ} (o : Option A) (e : Error) (a : A) → or_raise o e ≡ ok a → o ≡ some a
or_raise-eq-ok none e a h = cc
or_raise-eq-ok (some x) e a h = cc
