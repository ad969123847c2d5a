-- ===== src/Memory/SessionOps.antt =====
-- crates/core/src/adapters/memory.rs, `impl SessionOps`. Sessions are kept by their token.
pub mod ByToken
use better_auth_rs_worker.Prelude.{
  ℕ, ◌-◌, String, not, ◌&&◌, Option, none, some, List, ◌==◌, get_or, filter, ltb,
}
use better_auth_rs_worker.Error.{AuthResult, ok, err, session_not_found}
use better_auth_rs_worker.Action.{Action}
use better_auth_rs_worker.HashMap.{get, insert, remove, modify, retain, values, len}
use better_auth_rs_worker.Entity.{Instant, Session, CreateSession}
use better_auth_rs_worker.Entity.Sessions.{from_create}
use better_auth_rs_worker.Memory.{MemoryDatabaseAdapter, supplied_or_generated_id}

-- `now` is read only where the input has no creation time.
unfoldable pub create_session :
    CreateSession
    → AuthResult String
    → AuthResult String
    → Instant
    → Action MemoryDatabaseAdapter Session
create_session create generated_id generated_token now db =
    elim (supplied_or_generated_id create.id generated_id) [
      | err e ↦ (err e, db)
      | ok id ↦ elim (supplied_or_generated_id create.token generated_token) [
        | err e ↦ (err e, db)
        | ok token ↦
            let session = from_create id token create (get_or create.created_at now) in
            (ok session, record db { sessions = insert token session db.sessions })
      ]
    ]

unfoldable pub get_session : String → Action MemoryDatabaseAdapter (Option Session)
get_session token db = (ok (get token db.sessions), db)

unfoldable pub get_user_sessions : String → Action MemoryDatabaseAdapter (List Session)
get_user_sessions user_id db =
    (ok (filter (λ s. s.user_id == user_id && s.active) (values db.sessions)), db)

unfoldable pub update_session_expiry :
    String → Instant → Instant → Action MemoryDatabaseAdapter Unit
update_session_expiry token expires_at now db = (
  ok tt,
  record db {
    sessions =
        modify token (λ s. record s { expires_at = expires_at; updated_at = now }) db.sessions;
  },
)

unfoldable pub delete_session : String → Action MemoryDatabaseAdapter Unit
delete_session token db = (ok tt, record db { sessions = remove token db.sessions })

unfoldable pub delete_user_sessions : String → Action MemoryDatabaseAdapter Unit
delete_user_sessions user_id db =
    (ok tt, record db { sessions = retain (λ s. not (s.user_id == user_id)) db.sessions })

unfoldable pub delete_expired_sessions : Instant → Action MemoryDatabaseAdapter ℕ
delete_expired_sessions now db =
    let kept = retain (λ s. ltb now s.expires_at && s.active) db.sessions in
    (ok (len db.sessions - len kept), record db { sessions = kept })

unfoldable pub update_session_active_organization :
    String → Option String → Instant → Action MemoryDatabaseAdapter Session
update_session_active_organization token organization_id now db = elim (get token db.sessions) [
  | none ↦ (err session_not_found, db)
  | some s ↦
      let changed =
        λ (s : Session). record s { active_organization_id = organization_id; updated_at = now } in
      (ok (changed s), record db { sessions = modify token changed db.sessions })
]
