-- ===== src/Session/InMemory.antt =====
-- The in-memory adapter as a store of the session manager.
use better_auth_rs_worker.Prelude.{
  ◌+◌, ◌≤◌, String, ◌≡◌, refl, true, ◌&&◌, Option, some, List, [], ◌∷◌, arith, ◌==◌, eq_iff,
  if◌then◌else◌, filter, any, All, ap, ◌∙◌,
}
use better_auth_rs_worker.Error.{AuthResult, ok}
use better_auth_rs_worker.HashMap.{HashMap, get, values}
use better_auth_rs_worker.HashMap.Keys.{UniqueKeys}
use better_auth_rs_worker.HashMap.Laws.{get-modify, get-remove, get-insert_self}
use better_auth_rs_worker.Entity.{Instant, Session}
use better_auth_rs_worker.Entity.Sessions.{from_create}
use better_auth_rs_worker.Memory.{MemoryDatabaseAdapter}
use better_auth_rs_worker.Memory.SessionOps
use better_auth_rs_worker.Memory.SessionOps.ByToken.{ByToken, SessionsByToken}
use better_auth_rs_worker.Session.{
  SessionStore, SessionConfig, create_session, get_session, should_refresh,
}
use better_auth_rs_worker.Session.Laws.{SessionStoreLaws, extended}
use better_auth_rs_worker.Session.Access.{accessed, get_session_lem}

-- `generated_id` and `generated_token` serve a creation whose input has none.
abbrev pub memory_store : AuthResult String → AuthResult String → Instant → SessionStore
memory_store generated_id generated_token now = record {
  State = MemoryDatabaseAdapter;
  create_session = λ c. SessionOps.create_session c generated_id generated_token now;
  get_session = SessionOps.get_session;
  get_user_sessions = SessionOps.get_user_sessions;
  update_session_expiry = SessionOps.update_session_expiry;
  delete_session = SessionOps.delete_session;
  delete_user_sessions = SessionOps.delete_user_sessions;
  delete_expired_sessions = SessionOps.delete_expired_sessions;
}

All-imp {ℓ} :
    {A : Type ℓ} {P Q : A → Type 0} (xs : List A) → ((a : A) → P a → Q a) → All P xs → All Q xs
All-imp [] f h = tt
All-imp (x ∷ xs) f h = (f x h.0, All-imp xs f h.1)

pub stored-ByToken :
    (m : HashMap Session) → UniqueKeys m → ByToken m → All (λ s. get s.token m ≡ some s) (values m)
unfolding get
stored-ByToken [] u b = tt
stored-ByToken ((k, s) ∷ m) u b = (
  ground (arith, eq_iff k s.token),
  All-imp (values m) (λ x p. ground (arith, eq_iff k x.token)) (stored-ByToken m u.1 b.1),
)

pub owned_stored :
    (user_id : String) (m : HashMap Session) (xs : List Session)
    → All (λ s. get s.token m ≡ some s) xs
    → All
        (λ s. (get s.token m ≡ some s) × (s.user_id ≡ user_id) × (s.active ≡ true))
        (filter (λ s. s.user_id == user_id && s.active) xs)
owned_stored user_id m [] h = tt
owned_stored user_id m (x ∷ xs) h =
    ground (arith, owned_stored user_id m xs h.1, eq_iff x.user_id user_id)

pub owned_listed :
    (user_id t : String) (m : HashMap Session) (s : Session)
    → ByToken m
    → get t m ≡ some s
    → s.user_id ≡ user_id
    → s.active ≡ true
    → any (λ x. x.token == t) (filter (λ s. s.user_id == user_id && s.active) (values m)) ≡ true
unfolding get
owned_listed user_id t [] s b e u a = absurd (ground arith)
owned_listed user_id t ((k, x) ∷ m) s b e u a =
    ground (
      arith,
      owned_listed user_id t m s b.1,
      eq_iff k t,
      eq_iff x.token t,
      eq_iff x.user_id user_id,
    )

unfoldable pub memory_laws :
    (generated_id generated_token : AuthResult String) (now : Instant)
    → SessionStoreLaws (memory_store generated_id generated_token now)
unfolding SessionOps.get_session SessionOps.get_user_sessions SessionOps.update_session_expiry
    SessionOps.delete_session
memory_laws generated_id generated_token now = record {
  lookup = λ db t. get t db.sessions;
  listed = λ u db. filter (λ s. s.user_id == u && s.active) (values db.sessions);
  Valid = SessionsByToken;
  get_lem = λ t db. refl;
  update_ok = λ t e n db. refl;
  lookup-update = λ t e n db j.
      ground (arith, get-modify t j (λ s. record s { expires_at = e; updated_at = n }) db.sessions);
  delete_ok = λ t db. refl;
  lookup-delete = λ t db j. get-remove t j db.sessions;
  list_lem = λ u db. refl;
  listed_sound = λ u db v.
      owned_stored u db.sessions (values db.sessions)
        (stored-ByToken db.sessions v.unique v.by_token);
  listed_complete = λ u db t s v. owned_listed u t db.sessions s v.by_token;
}

-- Creating a session in memory succeeds with the user and the configured lifetime, and an access
-- by its token that comes no later than its expiry returns it, with a new expiry where a refresh
-- is due.
pub get-create_session :
    (config : SessionConfig) (user_id id token : String) (ip_address user_agent : Option String)
    (generated : AuthResult String) (created now later written : Instant)
    (db : MemoryDatabaseAdapter)
    → now ≤ created + config.expires_in
    → let store = memory_store generated generated created in
      let made =
        create_session store config user_id ip_address user_agent (ok id) (ok token) created db in
      (s : Session) × (made.0 ≡ ok s)
      × (s.user_id ≡ user_id)
      × (s.expires_at ≡ created + config.expires_in)
      × ((get_session store config token now later written made.1).0
          ≡ ok (
              if should_refresh config now s
              then some (extended (later + config.expires_in) written s)
              else some s))
unfolding create_session SessionOps.create_session from_create accessed memory_laws
get-create_session config user_id id token ip ua generated created now later written db le =
    let store = memory_store generated generated created in
    let made = create_session store config user_id ip ua (ok id) (ok token) created db in
    let access =
      get_session_lem (memory_laws generated generated created) config token now later written
        made.1 in
    (
      _,
      refl,
      refl,
      refl,
      access.0
          ∙ ap (λ x. ok (accessed config now later written x)) (get-insert_self token _ db.sessions)
          ∙ ap ok (ground arith),
    )
