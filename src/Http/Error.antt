-- ===== src/Http/Error.antt =====
-- common/http/include/HttpError.hpp and HttpErrorMapping.hpp: the errors that the server answers
-- with, the exceptions of the code, and how a handler catches them.
use ecommerce_platform.Prelude.{ℕ, ◌≡◌, refl, ◌⊎◌, inl, inr, Option, none, some, Text, text}

-- http::status, by its code.
abbrev pub Status : Type 0
Status = ℕ

pub record HttpError : Type 0 where
  pub status : Status
  pub code : Text
  pub message : Text

-- The default member values of HttpError.
abbrev pub default_error : HttpError
default_error = record {
  status = 500;
  code = text "internal_error";
  message = text "Internal server error";
}

-- What code of the server throws, by the most derived of the classes that a handler tells apart.
-- `other_exception` is any other class under std::exception, std::runtime_error and
-- std::logic_error included; `non_standard` is a thrown value of no such class.
pub data Exception : Type 0 where
  http_exception : HttpError → Exception
  invalid_parameter : (key : Text) → Exception
  invalid_argument : (what : Text) → Exception
  out_of_range : (what : Text) → Exception
  other_exception : (what : Text) → Exception
  non_standard : Exception

-- A computation that may throw.
pub data Outcome {ℓ} (A : Type ℓ) : Type ℓ where
  returns : A → Outcome A
  throws : Exception → Outcome A

infixl 5 ◌>>=◌
abbrev pub ◌>>=◌ {ℓ κ} : {A : Type ℓ} {B : Type κ} → Outcome A → (A → Outcome B) → Outcome B
returns a >>= f = f a
throws e >>= f = throws e

-- What a computation comes to.
pub Outcome-cases {ℓ} :
    {A : Type ℓ} (o : Outcome A) → ((a : A) × (o ≡ returns a)) ⊎ ((e : Exception) × (o ≡ throws e))
Outcome-cases (returns a) = inl (a, refl)
Outcome-cases (throws e) = inr (e, refl)

-- What a main returns that catches std::exception: 1 when one was thrown. Any other value that is
-- thrown ends the program.
unfoldable pub exit_code {ℓ} : {A : Type ℓ} → Outcome A → Option ℕ
exit_code (returns a) = some 0
exit_code (throws non_standard) = none
exit_code (throws x) = some 1

-- An exception ends a call; what it has written by then stays.
abbrev pub go_on {ℓ κ} :
    {A : Type ℓ} {W : Type κ}
    → Outcome A
    → W
    → (A → W × Outcome (Unit {0}))
    → W × Outcome (Unit {0})
go_on (returns a) written f = f a
go_on (throws x) written f = (written, throws x)
