-- ===== src/Memory/MemberOps.antt =====
-- crates/core/src/adapters/memory.rs, `impl MemberOps`.
pub mod Unique
use better_auth_rs_worker.Prelude.{
  ℕ, String, Bool, ◌&&◌, Option, none, some, List, ◌==◌, if◌then◌else◌, filter, find, any, length,
}
use better_auth_rs_worker.Error.{AuthResult, ok, err, conflict, not_found}
use better_auth_rs_worker.Action.{Action}
use better_auth_rs_worker.HashMap.{get, insert, remove, modify, values}
use better_auth_rs_worker.Entity.{Instant, Member, CreateMember}
use better_auth_rs_worker.Entity.Members.{from_create}
use better_auth_rs_worker.Memory.{MemoryDatabaseAdapter}

-- `m.organization_id() == organization_id && m.user_id() == user_id`
abbrev pub is_member : String → String → Member → Bool
is_member organization_id user_id m = m.organization_id == organization_id && m.user_id == user_id

unfoldable pub create_member :
    CreateMember → AuthResult String → Instant → Action MemoryDatabaseAdapter Member
create_member create generated now db =
    if any (is_member create.organization_id create.user_id) (values db.members)
    then (err (conflict "User is already a member of this organization"), db)
    else elim generated [
      | err e ↦ (err e, db)
      | ok id ↦
          let member = from_create id create now in
          (ok member, record db { members = insert id member db.members })
    ]

unfoldable pub get_member : String → String → Action MemoryDatabaseAdapter (Option Member)
get_member organization_id user_id db =
    (ok (find (is_member organization_id user_id) (values db.members)), db)

unfoldable pub get_member_by_id : String → Action MemoryDatabaseAdapter (Option Member)
get_member_by_id id db = (ok (get id db.members), db)

unfoldable pub update_member_role : String → String → Action MemoryDatabaseAdapter Member
update_member_role member_id role db = elim (get member_id db.members) [
  | none ↦ (err (not_found "Member not found"), db)
  | some m ↦
      let changed = λ (m : Member). record m { role = role } in
      (ok (changed m), record db { members = modify member_id changed db.members })
]

unfoldable pub delete_member : String → Action MemoryDatabaseAdapter Unit
delete_member member_id db = (ok tt, record db { members = remove member_id db.members })

unfoldable pub list_organization_members : String → Action MemoryDatabaseAdapter (List Member)
list_organization_members organization_id db =
    (ok (filter (λ m. m.organization_id == organization_id) (values db.members)), db)

unfoldable pub count_organization_members : String → Action MemoryDatabaseAdapter ℕ
count_organization_members organization_id db =
    (ok (length (filter (λ m. m.organization_id == organization_id) (values db.members))), db)

unfoldable pub count_organization_owners : String → Action MemoryDatabaseAdapter ℕ
count_organization_owners organization_id db = (
  ok (
      length (
        filter (λ m. m.organization_id == organization_id && m.role == "owner")
          (values db.members))),
  db,
)
