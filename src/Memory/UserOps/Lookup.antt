-- ===== src/Memory/UserOps/Lookup.antt =====
-- Finding users by e-mail address and by user name.
use better_auth_rs_worker.Prelude.{String, ◌≡◌, some, arith, ◌↔◌, inl, inr, Option-cases}
use better_auth_rs_worker.Error.{AuthResult, ok, AuthResult-cases}
use better_auth_rs_worker.HashMap.{get}
use better_auth_rs_worker.HashMap.Laws.{get-insert_self}
use better_auth_rs_worker.Entity.{Instant, User, CreateUser}
use better_auth_rs_worker.Entity.Users.{from_create}
use better_auth_rs_worker.Memory.{MemoryDatabaseAdapter, supplied_or_generated_id}
use better_auth_rs_worker.Memory.UserOps.{
  create_user, get_user_by_email, get_user_by_id, insert_user,
}
use better_auth_rs_worker.Memory.UserOps.Index.{UsersIndexed}

-- If both indexes are exact, the lookup by e-mail address returns a user exactly when the table
-- holds that user, under some id, with that address.
pub get_user_by_email_iff :
    (db : MemoryDatabaseAdapter) (email : String) (u : User)
    → UsersIndexed db
    → ((get_user_by_email email db).0 ≡ ok (some u))
      ↔ ((id : String) × (get id db.users ≡ some u) × (u.email ≡ some email))
unfolding get_user_by_email
get_user_by_email_iff db email u h = (found, held)
  where
    found :
        (get_user_by_email email db).0 ≡ ok (some u)
        → (id : String) × (get id db.users ≡ some u) × (u.email ≡ some email)
    found p = elim (Option-cases (get email db.email_index)) [
      | inl e ↦ absurd (ground (arith))
      | inr (id, e) ↦ (id, ground arith, ground (arith, h.emails.sound email id e))
    ]

    held :
        (id : String) × (get id db.users ≡ some u) × (u.email ≡ some email)
        → (get_user_by_email email db).0 ≡ ok (some u)
    held (id, p, q) = ground (arith, h.emails.complete email id)

-- When `create_user` succeeds it has made the insertions, under the supplied or generated id.
create_user-ok :
    (create : CreateUser) (generated : AuthResult String) (now : Instant)
    (db : MemoryDatabaseAdapter) (u : User)
    → (create_user create generated now db).0 ≡ ok u
    → (id : String) × (supplied_or_generated_id create.id generated ≡ ok id)
      × (create_user create generated now db ≡ insert_user id create now db)
unfolding create_user
create_user-ok create generated now db u e =
    elim (AuthResult-cases (supplied_or_generated_id create.id generated)) [
      | inr (f, p) ↦ absurd (ground arith)
      | inl (id, p) ↦ (id, p, ground arith)
    ]

-- A user that a creation with an e-mail address returned is found by its id and by that address
-- in the store that the creation leaves.
pub get-create_user :
    (create : CreateUser) (generated : AuthResult String) (now : Instant)
    (db : MemoryDatabaseAdapter) (u : User) (email : String)
    → (create_user create generated now db).0 ≡ ok u
    → create.email ≡ some email
    → let db' = (create_user create generated now db).1 in
      ((get_user_by_id u.id db').0 ≡ ok (some u)) × ((get_user_by_email email db').0 ≡ ok (some u))
unfolding get_user_by_id get_user_by_email from_create
get-create_user create generated now db u email e r =
    let (id, p, q) = create_user-ok create generated now db u e in
    (
      ground (arith, q, get-insert_self id u db.users),
      ground (arith, q, get-insert_self id u db.users, get-insert_self email id db.email_index),
    )
