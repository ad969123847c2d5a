-- ===== src/Session/Request.antt =====
-- The session of a request: `SessionManager::extract_session_token` of crates/core/src/session.rs and
-- `AuthContext::require_session` of crates/core/src/plugin.rs, over the in-memory store.
use better_auth_rs_worker.Prelude.{
  String, Option, none, some, List, not, ◌&&◌, ◌==◌, eq_refl, ◌+◌, ◌≡◌, refl, ap, ◌∙◌, inl, inr,
  arith, false, Option-cases, Bool-cases, find,
}
use better_auth_rs_worker.Error.{AuthResult, ok, unauthenticated, AuthResult-cases}
use better_auth_rs_worker.Action.{Action, pure, raise, ◌>>=◌}
use better_auth_rs_worker.HashMap.{get}
use better_auth_rs_worker.HashMap.Laws.{get-modify}
use better_auth_rs_worker.Entity.{Instant, User, Session}
use better_auth_rs_worker.Http.{AuthRequest}
use better_auth_rs_worker.Memory.{MemoryDatabaseAdapter}
use better_auth_rs_worker.Memory.SessionOps
use better_auth_rs_worker.Memory.UserOps.{get_user_by_id}
use better_auth_rs_worker.Session.{SessionConfig, get_session, is_dead, should_refresh}
use better_auth_rs_worker.Session.InMemory.{memory_store}
use better_auth_rs_worker.Oidc.FormRequest.{strip_prefix}
use better_auth_rs_worker.Organization.Members.{found_or}

-- `SessionConfig::cookie_name`, and `Cookie::split_parse(..).flatten()` of the `cookie` crate: the
-- names and values of the cookies in a header that can be read.
pub record Cookies : Type 0 where
  pub cookie_name : String
  pub split_parse : String → List (String × String)

-- What an access reads of the clock: at the test of the expiry, where the new expiry is computed and
-- where the row is stamped.
pub record AccessTimes : Type 0 where
  pub now : Instant
  pub later : Instant
  pub written : Instant

module _ (cookies : Cookies) where
  -- The value of the first cookie with the configured name that is not empty.
  abbrev cookie_token : AuthRequest → Option String
  cookie_token req = elim (get "cookie" req.headers) [
    | none ↦ none
    | some header ↦
        elim (find (λ c. c.0 == cookies.cookie_name && not (c.1 == ""))
          (cookies.split_parse header)) [ none ↦ none | some c ↦ some c.1 ]
  ]

  unfoldable pub extract_session_token : AuthRequest → Option String
  extract_session_token req = elim (get "authorization" req.headers) [
    | none ↦ cookie_token req
    | some auth_header ↦ elim (strip_prefix "Bearer " auth_header) [
      | none ↦ cookie_token req
      | some token ↦ some token
    ]
  ]

  module _ (config : SessionConfig) where
    -- No session is created, so what the store would draw for one is of no account.
    unfoldable pub require_session :
        AuthRequest → AccessTimes → Action MemoryDatabaseAdapter (User × Session)
    require_session req t = elim (extract_session_token req) [
      | none ↦ raise unauthenticated
      | some token ↦ (do
        found ←
            get_session (memory_store (ok "") (ok "") t.written) config token t.now t.later
              t.written
        session ← found_or unauthenticated found
        user ← get_user_by_id session.user_id
        user ← found_or unauthenticated user
        pure (user, session))
    ]

module _ (config : SessionConfig) (token : String) (t : AccessTimes)
    (db : MemoryDatabaseAdapter) where
  -- An access changes no table but that of the sessions, and a session that it returns is a live one
  -- from before the access, apart from its expiry and its stamp.
  get_session_found :
      let out =
        get_session
          (memory_store (ok "") (ok "") t.written)
          config
          token
          t.now
          t.later
          t.written
          db in
      ((s : Session)
        → out.0 ≡ ok (some s)
        → (s0 : Session) × (get token db.sessions ≡ some s0)
          × (is_dead t.now s0 ≡ false)
          × (s.user_id ≡ s0.user_id)
          × (s.created_at ≡ s0.created_at))
      × (out.1.users ≡ db.users)
      × (out.1.oidc_clients ≡ db.oidc_clients)
      × (out.1.oidc_codes ≡ db.oidc_codes)
  unfolding get_session SessionOps.get_session SessionOps.update_session_expiry
      SessionOps.delete_session
  get_session_found = elim (Option-cases (get token db.sessions)) [
    | inl e ↦ rw e (λ s p. absurd (ground arith), refl, refl, refl)
    | inr (s0, e) ↦ elim (Bool-cases (is_dead t.now s0)) [
      | inl d ↦ rw (e, d) (λ s p. absurd (ground arith), refl, refl, refl)
      | inr l ↦ elim (Bool-cases (should_refresh config t.now s0)) [
        | inr k ↦
            rw (e, l, k)
              (λ s p. (s0, ground arith, l, ground arith, ground arith), refl, refl, refl)
        | inl k ↦
            let moved =
              get-modify token token
                (λ (x : Session). record x {
                  expires_at = t.later + config.expires_in;
                  updated_at = t.written;
                })
                db.sessions in
            rw (e, l, k)
              (
                λ s p. (
                  s0,
                  refl,
                  l,
                  ground (arith, moved, eq_refl token),
                  ground (arith, moved, eq_refl token),
                ),
                refl,
                refl,
                refl,
              )
      ]
    ]
  ]

module _ (cookies : Cookies) (config : SessionConfig) (req : AuthRequest) (t : AccessTimes)
    (db : MemoryDatabaseAdapter) where
  -- The live session that a request carries, with its user, before the access.
  pub record IsAuthenticated (user : User) (session : Session) : Type 0 where
    pub token : String
    pub stored : Session
    pub presented : extract_session_token cookies req ≡ some token
    pub opened : get token db.sessions ≡ some stored
    pub live : is_dead t.now stored ≡ false
    pub known : get stored.user_id db.users ≡ some user
    pub created : session.created_at ≡ stored.created_at

  abbrev Authenticates : AuthResult (User × Session) × MemoryDatabaseAdapter → Type 0
  Authenticates (r, db') =
      ((user : User) (session : Session) → r ≡ ok (user, session) → IsAuthenticated user session)
      × (db'.oidc_clients ≡ db.oidc_clients)
      × (db'.oidc_codes ≡ db.oidc_codes)

  pub require_session-Authenticates : Authenticates (require_session cookies config req t db)
  unfolding require_session get_user_by_id
  require_session-Authenticates = elim (Option-cases (extract_session_token cookies req)) [
    | inl e ↦ rw (require_session, e) (λ u s p. absurd (ground arith), refl, refl)
    | inr (token, e) ↦
        let out =
          get_session (memory_store (ok "") (ok "") t.written) config token t.now t.later t.written
            db in
        let (found, users, clients, codes) = get_session_found config token t db in
        elim (AuthResult-cases out.0) [
          | inr (f, p) ↦ rw (require_session, e, p) (λ u s q. absurd (ground arith), clients, codes)
          | inl (x, p) ↦ elim (Option-cases x) [
            | inl n ↦ rw (require_session, e, p, n) (λ u s q. absurd (ground arith), clients, codes)
            | inr (session, n) ↦ elim (Option-cases (get session.user_id out.1.users)) [
              | inl k ↦
                  rw (require_session, e, p, n, k) (λ u s q. absurd (ground arith), clients, codes)
              | inr (user, k) ↦
                  rw (require_session, e, p, n, k)
                    (
                      λ u s q.
                          let (s0, opened, live, same, created) = found session (p ∙ ap ok n) in
                          record {
                            token = token;
                            stored = s0;
                            presented = e;
                            opened = opened;
                            live = live;
                            known = ground arith;
                            created = ground arith;
                          },
                      clients,
                      codes,
                    )
            ]
          ]
        ]
  ]
