-- ===== src/Action/Keeps.antt =====
-- A predicate of the state that a chain of actions keeps.
use mathlib.Core.Path.{◌≡◌, refl}
use better_auth_rs_worker.Error.{AuthResult, ok, err}
use better_auth_rs_worker.Action.{Action, and_then}

module _ {S A B : Type 0} (P : S → Type 0) where
  -- The predicate holds after a result and what follows it, if it holds at an error and what
  -- follows a success keeps it.
  pub and_then-keeps :
      (r : AuthResult A) (f : A → Action S B) (s : S)
      → P s
      → ((a : A) → r ≡ ok a → P (f a s).1)
      → P (and_then r f s).1
  and_then-keeps (ok a) f s p h = h a refl
  and_then-keeps (err e) f s p h = p
