-- ===== src/Session/Laws.antt =====
-- What the manager relies on of a store: a lookup by token that its operations change as they say.
use better_auth_rs_worker.Prelude.{
  String, ◌≡◌, true, Option, none, some, List, ◌==◌, if◌then◌else◌, any, All,
}
use better_auth_rs_worker.Error.{ok}
use better_auth_rs_worker.Entity.{Instant, Session}
use better_auth_rs_worker.Session.{SessionStore}

-- The session with another expiry and stamp.
abbrev pub extended : Instant → Instant → Session → Session
extended expires_at now s = record s { expires_at = expires_at; updated_at = now }

abbrev pub extended? : Instant → Instant → Option Session → Option Session
extended? expires_at now none = none
extended? expires_at now (some s) = some (extended expires_at now s)

-- A store that never fails and keeps its sessions by their tokens.
pub record SessionStoreLaws (store : SessionStore) : Type 1 where
  pub lookup : store.State → String → Option Session
  pub listed : String → store.State → List Session
  pub Valid : store.State → Type 0
  pub get_lem : (t : String) (st : store.State) → store.get_session t st ≡ (ok (lookup st t), st)
  pub update_ok :
      (t : String) (e n : Instant) (st : store.State)
      → (store.update_session_expiry t e n st).0 ≡ ok tt
  pub lookup-update :
      (t : String) (e n : Instant) (st : store.State) (j : String)
      → lookup (store.update_session_expiry t e n st).1 j
        ≡ (if t == j then extended? e n (lookup st j) else lookup st j)
  pub delete_ok : (t : String) (st : store.State) → (store.delete_session t st).0 ≡ ok tt
  pub lookup-delete :
      (t : String) (st : store.State) (j : String)
      → lookup (store.delete_session t st).1 j ≡ (if t == j then none else lookup st j)
  pub list_lem :
      (u : String) (st : store.State) → store.get_user_sessions u st ≡ (ok (listed u st), st)
  pub listed_sound :
      (u : String) (st : store.State)
      → Valid st
      → All (λ s. (lookup st s.token ≡ some s) × (s.user_id ≡ u) × (s.active ≡ true)) (listed u st)
  pub listed_complete :
      (u : String) (st : store.State) (t : String) (s : Session)
      → Valid st
      → lookup st t ≡ some s
      → s.user_id ≡ u
      → s.active ≡ true
      → any (λ x. x.token == t) (listed u st) ≡ true
