-- ===== src/Memory/SessionOps/ByToken.antt =====
-- Sessions stay under their own tokens, whatever the session operations are called with.
use better_auth_rs_worker.Prelude.{
  String, ◌≡◌, refl, Bool, Option, [], ◌∷◌, arith, eq_iff, inl, inr, Option-cases, get_or,
}
use better_auth_rs_worker.Error.{AuthResult, AuthResult-cases}
use better_auth_rs_worker.HashMap.{HashMap, get, insert, remove, modify, retain}
use better_auth_rs_worker.HashMap.Keys.{
  UniqueKeys, insert-UniqueKeys, remove-UniqueKeys, retain-UniqueKeys, modify-UniqueKeys,
}
use better_auth_rs_worker.Entity.{Instant, Session, CreateSession}
use better_auth_rs_worker.Entity.Sessions.{from_create}
use better_auth_rs_worker.Memory.{MemoryDatabaseAdapter, new, supplied_or_generated_id}
use better_auth_rs_worker.Memory.SessionOps.{
  create_session, update_session_expiry, delete_session, delete_user_sessions,
  delete_expired_sessions, update_session_active_organization,
}

-- Every session is stored under its own token, once.
abbrev pub ByToken : HashMap Session → Type 0
ByToken [] = Unit
ByToken ((k, s) ∷ m) = (k ≡ s.token) × ByToken m

pub record SessionsByToken (db : MemoryDatabaseAdapter) : Type 0 where
  pub unique : UniqueKeys db.sessions
  pub by_token : ByToken db.sessions

insert-ByToken : (s : Session) (m : HashMap Session) → ByToken m → ByToken (insert s.token s m)
unfolding insert
insert-ByToken s [] b = (refl, tt)
insert-ByToken s ((k, x) ∷ m) b = ground (arith, insert-ByToken s m b.1, eq_iff k s.token)

remove-ByToken : (t : String) (m : HashMap Session) → ByToken m → ByToken (remove t m)
unfolding remove
remove-ByToken t [] b = tt
remove-ByToken t ((k, x) ∷ m) b = ground (arith, remove-ByToken t m b.1)

retain-ByToken : (p : Session → Bool) (m : HashMap Session) → ByToken m → ByToken (retain p m)
unfolding retain
retain-ByToken p [] b = tt
retain-ByToken p ((k, x) ∷ m) b = ground (arith, retain-ByToken p m b.1)

modify-ByToken :
    (t : String) (f : Session → Session) (m : HashMap Session)
    → ((s : Session) → (f s).token ≡ s.token)
    → ByToken m
    → ByToken (modify t f m)
unfolding modify
modify-ByToken t f [] keep b = tt
modify-ByToken t f ((k, x) ∷ m) keep b = ground (arith, modify-ByToken t f m keep b.1, keep x)

-- One call of a session operation.
pub data Step (db : MemoryDatabaseAdapter) : MemoryDatabaseAdapter → Type 0 where
  creates :
      (create : CreateSession) (id token : AuthResult String) (now : Instant)
      → Step db (create_session create id token now db).1
  extends :
      (token : String) (expires_at now : Instant)
      → Step db (update_session_expiry token expires_at now db).1
  selects :
      (token : String) (organization_id : Option String) (now : Instant)
      → Step db (update_session_active_organization token organization_id now db).1
  deletes : (token : String) → Step db (delete_session token db).1
  deletes_user : (user_id : String) → Step db (delete_user_sessions user_id db).1
  sweeps : (now : Instant) → Step db (delete_expired_sessions now db).1

pub data Reach : MemoryDatabaseAdapter → Type 0 where
  start : Reach new
  next : {db db' : MemoryDatabaseAdapter} → Reach db → Step db db' → Reach db'

Step-SessionsByToken :
    {db db' : MemoryDatabaseAdapter} → Step db db' → SessionsByToken db → SessionsByToken db'
unfolding create_session update_session_expiry delete_session delete_user_sessions
    delete_expired_sessions update_session_active_organization from_create
Step-SessionsByToken {db} (creates create id token now) h =
    elim (AuthResult-cases (supplied_or_generated_id create.id id)) [
      | inr (e, p) ↦ rw (p, create_session) h
      | inl (i, p) ↦ elim (AuthResult-cases (supplied_or_generated_id create.token token)) [
        | inr (e, q) ↦ rw (p, create_session, q) h
        | inl (t, q) ↦
            rw (p, create_session, q)
              (record {
                unique = insert-UniqueKeys t _ db.sessions h.unique;
                by_token =
                    insert-ByToken (from_create i t create (get_or create.created_at now))
                      db.sessions h.by_token;
              })
      ]
    ]
Step-SessionsByToken {db} (extends token expires_at now) h = record {
  unique = modify-UniqueKeys token _ db.sessions h.unique;
  by_token = modify-ByToken token _ db.sessions (λ s. refl) h.by_token;
}
Step-SessionsByToken {db} (selects token organization_id now) h =
    elim (Option-cases (get token db.sessions)) [
      | inl e ↦ rw (e, update_session_active_organization) h
      | inr (s, e) ↦
          rw (e, update_session_active_organization)
            (record {
              unique = modify-UniqueKeys token _ db.sessions h.unique;
              by_token = modify-ByToken token _ db.sessions (λ s. refl) h.by_token;
            })
    ]
Step-SessionsByToken {db} (deletes token) h = record {
  unique = remove-UniqueKeys token db.sessions h.unique;
  by_token = remove-ByToken token db.sessions h.by_token;
}
Step-SessionsByToken {db} (deletes_user user_id) h = record {
  unique = retain-UniqueKeys _ db.sessions h.unique;
  by_token = retain-ByToken _ db.sessions h.by_token;
}
Step-SessionsByToken {db} (sweeps now) h = record {
  unique = retain-UniqueKeys _ db.sessions h.unique;
  by_token = retain-ByToken _ db.sessions h.by_token;
}

-- In every store that calls of the session operations reach from the empty one, the keys of the
-- session table are unique and every session is stored under its own token.
pub Reach-SessionsByToken : {db : MemoryDatabaseAdapter} → Reach db → SessionsByToken db
Reach-SessionsByToken start = record { unique = tt; by_token = tt }
Reach-SessionsByToken (next r s) = Step-SessionsByToken s (Reach-SessionsByToken r)
