-- ===== src/Examples/Sessions.antt =====
-- Runs of the session manager over the in-memory store.
use better_auth_rs_worker.Prelude.{
  String, ◌+◌, ◌≡◌, refl, true, false, not, ◌&&◌, Option, none, some, [], ◌∷◌, arith, if◌then◌else◌,
  ◌==◌, filter, length, is_some,
}
use better_auth_rs_worker.Error.{ok}
use better_auth_rs_worker.HashMap.{get}
use better_auth_rs_worker.Entity.{Session}
use better_auth_rs_worker.Memory.{MemoryDatabaseAdapter, new}
use better_auth_rs_worker.Memory.SessionOps.ByToken.{SessionsByToken}
use better_auth_rs_worker.Session.{
  SessionStore, SessionConfig, create_session, get_session, revoke_session,
  revoke_other_user_sessions, should_refresh, is_live,
}
use better_auth_rs_worker.Session.Laws.{SessionStoreLaws, extended}
use better_auth_rs_worker.Session.Access.{
  get_session_available, get_session_lem, found_live, accessed,
}
use better_auth_rs_worker.Session.Revocation.{
  revoke_session_lem, revoke_other_user_sessions_lem, owned_live,
}
use better_auth_rs_worker.Session.InMemory.{memory_store, memory_laws, get-create_session}

abbrev store : SessionStore
store = memory_store (ok "s9") (ok "t9") 5

abbrev laws : SessionStoreLaws store
laws = memory_laws (ok "s9") (ok "t9") 5

abbrev config : SessionConfig
config = record {
  expires_in = 100;
  update_age = some 10;
  disable_session_refresh = false;
  fresh_age = none;
}

abbrev session_of : String → Session
session_of token = record {
  id = token;
  expires_at = 100;
  token = token;
  created_at = 0;
  updated_at = 0;
  ip_address = none;
  user_agent = none;
  user_id = "u1";
  impersonated_by = none;
  active_organization_id = none;
  active = true;
}

abbrev two_sessions : MemoryDatabaseAdapter
two_sessions = record new { sessions = ("t1", session_of "t1") ∷ ("t2", session_of "t2") ∷ [] }

two_sessions-SessionsByToken : SessionsByToken two_sessions
unfolding get
two_sessions-SessionsByToken = record { unique = (refl, (refl, tt)); by_token = (refl, (refl, tt)) }

get_session_lem_example :
    ((get_session store config "t1" 50 51 52 two_sessions).0
      ≡ ok (accessed config 50 51 52 (laws.lookup two_sessions "t1")))
    × ((j : String)
        → laws.lookup (get_session store config "t1" 50 51 52 two_sessions).1 j ≡ (
            if "t1" == j
            then accessed config 50 51 52 (laws.lookup two_sessions "t1")
            else laws.lookup two_sessions j))
get_session_lem_example = get_session_lem laws config "t1" 50 51 52 two_sessions

get_session_available_example :
    (y : Option Session) × ((get_session store config "t1" 50 51 52 two_sessions).0 ≡ ok y)
    × (is_some y ≡ found_live 50 (some (session_of "t1")))
unfolding get memory_laws
get_session_available_example =
    get_session_available store config "t1" 50 51 52 two_sessions (some (session_of "t1")) refl

revoke_session_lem_example :
    ((revoke_session store config "t1" 50 51 52 two_sessions).0
      ≡ ok (is_some (accessed config 50 51 52 (laws.lookup two_sessions "t1"))))
    × ((j : String)
        → laws.lookup (revoke_session store config "t1" 50 51 52 two_sessions).1 j
          ≡ (if "t1" == j then none else laws.lookup two_sessions j))
revoke_session_lem_example = revoke_session_lem laws config "t1" 50 51 52 two_sessions

revoke_other_user_sessions_lem_example :
    ((revoke_other_user_sessions store config "u1" "t1" 50 two_sessions).0
      ≡ ok (
          length (
            filter
              (λ s. not (s.token == "t1"))
              (filter (is_live 50) (laws.listed "u1" two_sessions)))))
    × ((j : String)
        → laws.lookup (revoke_other_user_sessions store config "u1" "t1" 50 two_sessions).1 j ≡ (
            if owned_live "u1" 50 (laws.lookup two_sessions j) && not (j == "t1")
            then none
            else laws.lookup two_sessions j))
unfolding memory_laws
revoke_other_user_sessions_lem_example =
    revoke_other_user_sessions_lem laws config "u1" "t1" 50 two_sessions
      two_sessions-SessionsByToken

get-create_session_example :
    let store = memory_store (ok "x") (ok "x") 5 in
    let made = create_session store config "u1" none none (ok "s1") (ok "t1") 5 new in
    (s : Session) × (made.0 ≡ ok s)
    × (s.user_id ≡ "u1")
    × (s.expires_at ≡ 5 + config.expires_in)
    × ((get_session store config "t1" 50 51 52 made.1).0
        ≡ ok (
            if should_refresh config 50 s
            then some (extended (51 + config.expires_in) 52 s)
            else some s))
get-create_session_example =
    get-create_session config "u1" "s1" "t1" none none (ok "x") 5 50 51 52 new (omega arith)
