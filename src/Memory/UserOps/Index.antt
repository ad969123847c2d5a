-- ===== src/Memory/UserOps/Index.antt =====
-- The e-mail and user-name indexes of the user table.
use better_auth_rs_worker.Prelude.{
  String, ◌≡◌, false, Option, none, some, arith, inl, inr, Option-cases, Bool-cases,
}
use better_auth_rs_worker.Error.{AuthResult, ok, AuthResult-cases}
use better_auth_rs_worker.HashMap.{HashMap, get, contains_key}
use better_auth_rs_worker.HashMap.Index.{IsIndexed, insert-IsIndexed, remove-IsIndexed}
use better_auth_rs_worker.Entity.{Instant, User, CreateUser}
use better_auth_rs_worker.Entity.Users.{from_create}
use better_auth_rs_worker.Memory.{MemoryDatabaseAdapter, supplied_or_generated_id, is_taken}
use better_auth_rs_worker.Memory.UserOps.{create_user, delete_user, insert_user}

abbrev pub email_of : User → Option String
email_of u = u.email

abbrev pub username_of : User → Option String
username_of u = u.username

-- Both indexes agree with the table.
pub record UsersIndexed (db : MemoryDatabaseAdapter) : Type 0 where
  pub emails : IsIndexed email_of db.users db.email_index
  pub usernames : IsIndexed username_of db.users db.username_index

-- A key that is not taken has no entry.
is_taken_free :
    (o : Option String) (index : HashMap String) (k : String)
    → is_taken o index ≡ false
    → o ≡ some k
    → get k index ≡ none
unfolding contains_key
is_taken_free none index k f e = cc
is_taken_free (some j) index k f e =
    ground (arith, Option-cases (get k index), Option-cases (get j index))

-- What `create_user` does: nothing, or the insertions under an id with no key taken.
pub create_user_cases :
    (P : MemoryDatabaseAdapter → Type 0) (create : CreateUser) (generated : AuthResult String)
    (now : Instant) (db : MemoryDatabaseAdapter)
    → P db
    → ((id : String)
        → supplied_or_generated_id create.id generated ≡ ok id
        → is_taken create.email db.email_index ≡ false
        → is_taken create.username db.username_index ≡ false
        → P (insert_user id create now db).1)
    → P (create_user create generated now db).1
unfolding create_user
create_user_cases P create generated now db stay go =
    elim (AuthResult-cases (supplied_or_generated_id create.id generated)) [
      | inr (e, p) ↦ rw (p, create_user) stay
      | inl (id, p) ↦ elim (Bool-cases (is_taken create.email db.email_index)) [
        | inl q ↦ rw (p, create_user, q) stay
        | inr q ↦ elim (Bool-cases (is_taken create.username db.username_index)) [
          | inl r ↦ rw (p, create_user, q, r) stay
          | inr r ↦ rw (p, create_user, q, r) (go id p q r)
        ]
      ]
    ]

module _ (db : MemoryDatabaseAdapter) (h : UsersIndexed db) where
  -- If both indexes of the user table are exact, they are exact after a deletion.
  pub delete_user-UsersIndexed : (id : String) → UsersIndexed (delete_user id db).1
  unfolding delete_user
  delete_user-UsersIndexed id = elim (Option-cases (get id db.users)) [
    | inl e ↦ rw (e, delete_user) h
    | inr (u, e) ↦
        rw (e, delete_user)
          (record {
            emails = remove-IsIndexed email_of id u db.users db.email_index h.emails e;
            usernames = remove-IsIndexed username_of id u db.users db.username_index h.usernames e;
          })
  ]

  -- If both indexes of the user table are exact, and the id that a creation would use is not in
  -- the table, both are exact after the creation, whether it succeeds or fails.
  pub create_user-UsersIndexed :
      (create : CreateUser) (generated : AuthResult String) (now : Instant)
      → ((id : String)
          → supplied_or_generated_id create.id generated ≡ ok id
          → get id db.users ≡ none)
      → UsersIndexed (create_user create generated now db).1
  unfolding from_create
  create_user-UsersIndexed create generated now fresh =
      create_user_cases UsersIndexed create generated now db h λ id p q r. record {
        emails =
            insert-IsIndexed email_of id (from_create id create now) db.users db.email_index
              h.emails (fresh id p) (λ k. is_taken_free create.email db.email_index k q);
        usernames =
            insert-IsIndexed username_of id (from_create id create now) db.users db.username_index
              h.usernames (fresh id p) (λ k. is_taken_free create.username db.username_index k r);
      }
