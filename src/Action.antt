-- ===== src/Action.antt =====
-- Asynchronous methods that change a store and may fail: the store comes back beside the error,
-- since what was written before the error stays written.
pub mod Keeps
use better_auth_rs_worker.Error.{AuthError, AuthResult, ok, err}

abbrev pub Action : Type 0 → Type 0 → Type 0
Action S A = S → AuthResult A × S

module _ {S A : Type 0} where
  abbrev pub pure : A → Action S A
  pure a s = (ok a, s)

  abbrev pub raise : AuthError → Action S A
  raise e s = (err e, s)

  abbrev pub lift : AuthResult A → Action S A
  lift r s = (r, s)

module _ {S A B : Type 0} where
  abbrev pub and_then : AuthResult A → (A → Action S B) → Action S B
  and_then (ok a) f s = f a s
  and_then (err e) f s = (err e, s)

  infixl 5 ◌>>=◌ ◌>>◌
  abbrev pub ◌>>=◌ : Action S A → (A → Action S B) → Action S B
  ◌>>=◌ m f s = let (r, s') = m s in and_then r f s'

  abbrev pub ◌>>◌ : Action S A → Action S B → Action S B
  ◌>>◌ m n s = let (r, s') = m s in and_then r (λ _. n) s'
