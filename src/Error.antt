-- ===== src/Error.antt =====
-- crates/core/src/error.rs: the errors of the framework and their HTTP status.
use better_auth_rs_worker.Prelude.{ℕ, String, ◌≡◌, refl, ◌⊎◌, inl, inr}

-- `DatabaseError`
pub data DatabaseError : Type 0 where
  connection query migration constraint transaction : String → DatabaseError

-- `AuthError`; the payload of `Serialization` is the message of the JSON library's error.
pub data AuthError : Type 0 where
  bad_request invalid_request validation : String → AuthError
  invalid_credentials unauthenticated session_not_found : AuthError
  forbidden : String → AuthError
  unauthorized user_not_found : AuthError
  not_found conflict : String → AuthError
  rate_limited : AuthError
  payload_too_large not_implemented config : String → AuthError
  database : DatabaseError → AuthError
  serialization : String → AuthError
  plugin : String → String → AuthError
  internal password_hash jwt : String → AuthError

pub data AuthResult {ℓ} (A : Type ℓ) : Type ℓ where
  ok : A → AuthResult A
  err : AuthError → AuthResult A

-- `AuthError::status_code`
pub status_code : AuthError → ℕ
status_code (bad_request _) = 400
status_code (invalid_request _) = 400
status_code (validation _) = 400
status_code invalid_credentials = 401
status_code unauthenticated = 401
status_code session_not_found = 401
status_code (forbidden _) = 403
status_code unauthorized = 403
status_code user_not_found = 404
status_code (not_found _) = 404
status_code (conflict _) = 409
status_code (payload_too_large _) = 413
status_code rate_limited = 429
status_code (not_implemented _) = 501
status_code _ = 500

module _ {ℓ κ} {A : Type ℓ} {B : Type κ} where
  -- The `?` operator.
  infixl 5 ◌>>=◌
  abbrev pub ◌>>=◌ : AuthResult A → (A → AuthResult B) → AuthResult B
  ok a >>= f = f a
  err e >>= f = err e

pub AuthResult-cases {ℓ} :
    {A : Type ℓ} (r : AuthResult A) → ((a : A) × (r ≡ ok a)) ⊎ ((e : AuthError) × (r ≡ err e))
AuthResult-cases (ok a) = inl (a, refl)
AuthResult-cases (err e) = inr (e, refl)
