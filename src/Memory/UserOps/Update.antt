-- ===== src/Memory/UserOps/Update.antt =====
-- `update_user` and the indexes: when they stay exact, and when they do not.
use better_auth_rs_worker.Prelude.{
  String, ◌≡◌, ◌≢◌, refl, Option, none, some, arith, eq_iff, eq_refl, ◌⊎◌, inl, inr, Option-cases,
}
use better_auth_rs_worker.Error.{ok}
use better_auth_rs_worker.HashMap.{HashMap, get, modify}
use better_auth_rs_worker.HashMap.Laws.{get-modify, get-insert_self}
use better_auth_rs_worker.HashMap.Index.{
  IsIndexed, drop_key, modify-IsIndexed, modify-IsIndexed_same,
}
use better_auth_rs_worker.Entity.{Instant, User, UpdateUser, assign_some}
use better_auth_rs_worker.Entity.Users.{apply_update}
use better_auth_rs_worker.Memory.{MemoryDatabaseAdapter}
use better_auth_rs_worker.Memory.UserOps.{update_user, move_key, get_user_by_email}
use better_auth_rs_worker.Memory.UserOps.Index.{UsersIndexed, email_of, username_of}

-- The key is free, or already the one of `id`.
abbrev pub IsFreeFor : String → HashMap String → Option String → Type 0
IsFreeFor id index new =
    (k : String) → new ≡ some k → (get k index ≡ none) ⊎ (get k index ≡ some id)

move_key-IsIndexed :
    {V : Type 0} (key : V → Option String) (id : String) (v : V) (table : HashMap V)
    (index : HashMap String) (f : V → V) (new : Option String)
    → IsIndexed key table index
    → get id table ≡ some v
    → key (f v) ≡ assign_some new (key v)
    → IsFreeFor id index new
    → IsIndexed key (modify id f table) (move_key new (key v) id index)
move_key-IsIndexed key id v table index f none h e p free =
    modify-IsIndexed_same key id v table index h f e p
move_key-IsIndexed key id v table index f (some k) h e p free =
    modify-IsIndexed key id v table index h f k e p (free k refl)

-- If both indexes are exact, and the new e-mail address and the new user name of an update, where
-- given, are free or the user's own, both indexes are exact after the update.
pub update_user-UsersIndexed :
    (id : String) (update : UpdateUser) (now : Instant) (db : MemoryDatabaseAdapter)
    → UsersIndexed db
    → IsFreeFor id db.email_index update.email
    → IsFreeFor id db.username_index update.username
    → UsersIndexed (update_user id update now db).1
unfolding update_user apply_update
update_user-UsersIndexed id update now db h free_email free_name =
    elim (Option-cases (get id db.users)) [
      | inl e ↦ rw (e, update_user) h
      | inr (u, e) ↦
          rw (e, update_user)
            (record {
              emails =
                  move_key-IsIndexed email_of id u db.users db.email_index (apply_update update now)
                    update.email h.emails e refl free_email;
              usernames =
                  move_key-IsIndexed username_of id u db.users db.username_index
                    (apply_update update now) update.username h.usernames e refl free_name;
            })
    ]

-- If an update gives a stored user the e-mail address of another stored user, it succeeds with
-- the updated user. Afterwards the other user is still stored with that address, the lookup of
-- the address finds the updated user, and the indexes are not exact.
pub update_user_steals :
    (id other email : String) (u w : User) (update : UpdateUser) (now : Instant)
    (db : MemoryDatabaseAdapter)
    → get id db.users ≡ some u
    → get other db.users ≡ some w
    → id ≢ other
    → w.email ≡ some email
    → update.email ≡ some email
    → let (answer, db') = update_user id update now db in
      (v : User) × (answer ≡ ok v)
      × (v.id ≡ u.id)
      × (v.email ≡ some email)
      × (get other db'.users ≡ some w)
      × ((get_user_by_email email db').0 ≡ ok (some v))
      × ¬ UsersIndexed db'
unfolding update_user get_user_by_email apply_update
update_user_steals id other email u w update now db e e' ne p q =
    let index = get-insert_self email id (drop_key u.email db.email_index) in
    let moved = get-modify id other (apply_update update now) db.users in
    let changed = get-modify id id (apply_update update now) db.users in
    (
      apply_update update now u,
      ground arith,
      ground arith,
      ground arith,
      ground (arith, moved, eq_iff id other),
      ground (arith, index, changed, eq_refl id),
      λ h. ground (arith, h.emails.complete email other, moved, index, eq_iff id other),
    )
