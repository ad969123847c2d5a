-- ===== src/Session.antt =====
-- crates/core/src/session.rs: `SessionManager`, over the storage interface `SessionOps` of
-- crates/core/src/adapters/traits.rs. Each reading of a clock is an argument: `now` at the first
-- test, `later` where the new expiry is computed, and `written` where the store stamps the row.
-- Log lines are left out.
pub mod Laws
pub mod Access
pub mod Revocation
pub mod InMemory
pub mod Request
use better_auth_rs_worker.Prelude.{
  ℕ, ◌+◌, String, Bool, true, false, not, ◌&&◌, ◌||◌, Option, none, some, List, [], ◌∷◌, ◌==◌,
  if◌then◌else◌, ltb, leb, filter, length, is_some,
}
use better_auth_rs_worker.Error.{AuthResult, ok, err}
use better_auth_rs_worker.Action.{Action, pure, lift, ◌>>=◌, ◌>>◌}
use better_auth_rs_worker.Entity.{Instant, Duration, Session, CreateSession}

-- `trait SessionOps`: the operations that the manager calls.
pub record SessionStore : Type 1 where
  pub State : Type 0
  pub create_session : CreateSession → Action State Session
  pub get_session : String → Action State (Option Session)
  pub get_user_sessions : String → Action State (List Session)
  pub update_session_expiry : String → Instant → Instant → Action State Unit
  pub delete_session : String → Action State Unit
  pub delete_user_sessions : String → Action State Unit
  pub delete_expired_sessions : Instant → Action State ℕ

-- `SessionConfig`, less the attributes of the cookie.
pub record SessionConfig : Type 0 where
  pub expires_in : Duration
  pub update_age : Option Duration
  pub disable_session_refresh : Bool
  pub fresh_age : Option Duration

-- `match action.await { Ok(..) => .., Err(..) => .. }`: the error becomes a value.
abbrev pub attempt : {S A : Type 0} → Action S A → Action S (AuthResult A)
attempt m s = let (r, s') = m s in (ok r, s')

-- `s.expires_at() < now || !s.active()`
abbrev pub is_dead : Instant → Session → Bool
is_dead now s = ltb s.expires_at now || not s.active

-- `session.expires_at() > now && session.active()`
abbrev pub is_live : Instant → Session → Bool
is_live now s = ltb now s.expires_at && s.active

-- Whether an access extends the session; `now - updated >= age` is read as `updated + age <= now`.
abbrev pub should_refresh : SessionConfig → Instant → Session → Bool
should_refresh config now s =
    if config.disable_session_refresh
    then false
    else elim config.update_age [ none ↦ true | some age ↦ leb (s.updated_at + age) now ]

-- `SessionManager::is_session_fresh`
unfoldable pub is_session_fresh : SessionConfig → Instant → Session → Bool
is_session_fresh config now s = elim config.fresh_age [
  | none ↦ false
  | some fresh_age ↦ ltb now (s.created_at + fresh_age)
]

module _ (store : SessionStore) (config : SessionConfig) where
  open store use {State}

  -- `id` and `token` are what the runtime's generators return.
  unfoldable pub create_session :
      String
      → Option String
      → Option String
      → AuthResult String
      → AuthResult String
      → Instant
      → Action State Session
  create_session user_id ip_address user_agent id token now = do
    id ← lift id
    token ← lift token
    store.create_session (record {
      id = some id;
      token = some token;
      user_id = user_id;
      created_at = some now;
      expires_at = now + config.expires_in;
      ip_address = ip_address;
      user_agent = user_agent;
      impersonated_by = none;
      active_organization_id = none;
    })

  -- What the second read of a refresh gives: its session, or the one from before the refresh.
  abbrev pub reread_or : Session → AuthResult (Option Session) → Session
  reread_or s (ok (some refreshed)) = refreshed
  reread_or s (ok none) = s
  reread_or s (err e) = s

  -- The refresh of a live session. Neither write nor read failures reach the caller.
  abbrev pub refresh : Session → String → Instant → Instant → Action State (Option Session)
  refresh s token later written = do
    outcome ← attempt (store.update_session_expiry token (later + config.expires_in) written)
    elim outcome [
      | err e ↦ pure (some s)
      | ok _ ↦ (do reread ← attempt (store.get_session token); pure (some (reread_or s reread)))
    ]

  -- What `get_session` does with the session that it read.
  abbrev pub check :
      Option Session → String → Instant → Instant → Instant → Action State (Option Session)
  check none token now later written = pure none
  check (some s) token now later written =
      if is_dead now s
      then (do _ ← attempt (store.delete_session token); pure none)
      else if should_refresh config now s
      then refresh s token later written
      else pure (some s)

  unfoldable pub get_session : String → Instant → Instant → Instant → Action State (Option Session)
  get_session token now later written = do
    session ← store.get_session token
    check session token now later written

  unfoldable pub delete_session : String → Action State Unit
  delete_session token = do store.delete_session token; pure tt

  unfoldable pub delete_user_sessions : String → Action State Unit
  delete_user_sessions user_id = do store.delete_user_sessions user_id; pure tt

  unfoldable pub list_user_sessions : String → Instant → Action State (List Session)
  list_user_sessions user_id now = do
    sessions ← store.get_user_sessions user_id
    pure (filter (is_live now) sessions)

  unfoldable pub revoke_session : String → Instant → Instant → Instant → Action State Bool
  revoke_session token now later written = do
    session ← get_session token now later written
    if is_some session then (do delete_session token; pure true) else pure false

  unfoldable pub revoke_all_user_sessions : String → Instant → Action State ℕ
  revoke_all_user_sessions user_id now = do
    sessions ← list_user_sessions user_id now
    delete_user_sessions user_id
    pure (length sessions)

  -- The loop of `revoke_other_user_sessions`, with its counter.
  unfoldable pub revoke_others : String → ℕ → List Session → Action State ℕ
  revoke_others current_token count [] = pure count
  revoke_others current_token count (s ∷ rest) = elim (s.token == current_token) [
    | true ↦ revoke_others current_token count rest
    | false ↦ (do delete_session s.token; revoke_others current_token (count + 1) rest)
  ]

  unfoldable pub revoke_other_user_sessions : String → String → Instant → Action State ℕ
  revoke_other_user_sessions user_id current_token now = do
    sessions ← list_user_sessions user_id now
    revoke_others current_token 0 sessions

  unfoldable pub cleanup_expired_sessions : Instant → Action State ℕ
  cleanup_expired_sessions now = do count ← store.delete_expired_sessions now; pure count
