-- ===== src/Memory/UserOps.antt =====
-- crates/core/src/adapters/memory.rs, `impl UserOps`.
pub mod Index
pub mod Lookup
pub mod Update
pub mod Listing
use better_auth_rs_worker.Prelude.{String, Bool, Option, none, some, if◌then◌else◌}
use better_auth_rs_worker.Error.{AuthResult, ok, err, config, conflict, user_not_found}
use better_auth_rs_worker.Action.{Action}
use better_auth_rs_worker.HashMap.{HashMap, get, insert, remove, modify, contains_key}
use better_auth_rs_worker.HashMap.Index.{add_key, drop_key}
use better_auth_rs_worker.Entity.{Instant, User, CreateUser, UpdateUser}
use better_auth_rs_worker.Entity.Users.{from_create, apply_update}
use better_auth_rs_worker.Memory.{MemoryDatabaseAdapter, supplied_or_generated_id, is_taken}

-- The insertions at the end of `create_user`.
abbrev pub insert_user : String → CreateUser → Instant → Action MemoryDatabaseAdapter User
insert_user id create now db =
    let user = from_create id create now in
    (
      ok user,
      record db {
        users = insert id user db.users;
        email_index = add_key create.email id db.email_index;
        username_index = add_key create.username id db.username_index;
      },
    )

unfoldable pub create_user :
    CreateUser → AuthResult String → Instant → Action MemoryDatabaseAdapter User
create_user create generated now db = elim (supplied_or_generated_id create.id generated) [
  | err e ↦ (err e, db)
  | ok id ↦
      if is_taken create.email db.email_index
      then (err (config "Email already exists"), db)
      else if is_taken create.username db.username_index
      then (err (conflict "A user with this username already exists"), db)
      else insert_user id create now db
]

unfoldable pub get_user_by_id : String → Action MemoryDatabaseAdapter (Option User)
get_user_by_id id db = (ok (get id db.users), db)

-- The lookup through an index of `get_user_by_email` and `get_user_by_username`.
abbrev pub by_index : String → HashMap String → HashMap User → Option User
by_index k index users = elim (get k index) [ none ↦ none | some id ↦ get id users ]

unfoldable pub get_user_by_email : String → Action MemoryDatabaseAdapter (Option User)
get_user_by_email email db = (ok (by_index email db.email_index db.users), db)

unfoldable pub get_user_by_username : String → Action MemoryDatabaseAdapter (Option User)
get_user_by_username username db = (ok (by_index username db.username_index db.users), db)

-- `if let Some(new) = update { if let Some(old) = current { remove(old) } insert(new, id) }`
abbrev pub move_key : Option String → Option String → String → HashMap String → HashMap String
move_key none old id index = index
move_key (some k) old id index = insert k id (drop_key old index)

unfoldable pub update_user : String → UpdateUser → Instant → Action MemoryDatabaseAdapter User
update_user id update now db = elim (get id db.users) [
  | none ↦ (err user_not_found, db)
  | some user ↦ (
    ok (apply_update update now user),
    record db {
      users = modify id (apply_update update now) db.users;
      email_index = move_key update.email user.email id db.email_index;
      username_index = move_key update.username user.username id db.username_index;
    },
  )
]

unfoldable pub delete_user : String → Action MemoryDatabaseAdapter Unit
delete_user id db = elim (get id db.users) [
  | none ↦ (ok tt, db)
  | some user ↦ (
    ok tt,
    record db {
      users = remove id db.users;
      email_index = drop_key user.email db.email_index;
      username_index = drop_key user.username db.username_index;
    },
  )
]
