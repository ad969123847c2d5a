-- ===== src/Memory/MemberOps/Unique.antt =====
-- A user is a member of an organization at most once.
use better_auth_rs_worker.Prelude.{
  String, ◌≡◌, refl, Bool, arith, eq_comm, inl, inr, Bool-cases, Option-cases, any,
}
use better_auth_rs_worker.Error.{AuthResult, AuthResult-cases}
use better_auth_rs_worker.HashMap.{get, values}
use better_auth_rs_worker.HashMap.Distinct.{
  IsDistinct, insert-IsDistinct, remove-IsDistinct, modify-IsDistinct,
}
use better_auth_rs_worker.Entity.{Instant, Member, CreateMember}
use better_auth_rs_worker.Entity.Members.{from_create}
use better_auth_rs_worker.Memory.{MemoryDatabaseAdapter}
use better_auth_rs_worker.Memory.MemberOps.{
  create_member, update_member_role, delete_member, is_member,
}

abbrev pub same_membership : Member → Member → Bool
same_membership m n = is_member n.organization_id n.user_id m

same_membership_comm : (m n : Member) → same_membership m n ≡ same_membership n m
same_membership_comm m n =
    ground (arith, eq_comm m.organization_id n.organization_id, eq_comm m.user_id n.user_id)

-- No two stored members have both the organization and the user in common.
abbrev pub MembersDistinct : MemoryDatabaseAdapter → Type 0
MembersDistinct db = IsDistinct same_membership db.members

module _ (db : MemoryDatabaseAdapter) (h : MembersDistinct db) where
  -- If no two stored members have both the organization and the user in common, the same holds
  -- after a creation, whatever id it draws.
  pub create_member-MembersDistinct :
      (create : CreateMember) (generated : AuthResult String) (now : Instant)
      → MembersDistinct (create_member create generated now db).1
  unfolding create_member from_create
  create_member-MembersDistinct create generated now =
      elim (Bool-cases
        (any (is_member create.organization_id create.user_id) (values db.members))) [
          | inl q ↦ rw (q, create_member) h
          | inr q ↦ elim (AuthResult-cases generated) [
            | inr (e, p) ↦ rw (q, create_member, p) h
            | inl (id, p) ↦
                rw (q, create_member, p)
                  (insert-IsDistinct same_membership same_membership_comm db.members h id
                    (from_create id create now) q)
          ]
        ]

  pub update_member_role-MembersDistinct :
      (id role : String) → MembersDistinct (update_member_role id role db).1
  unfolding update_member_role
  update_member_role-MembersDistinct id role = elim (Option-cases (get id db.members)) [
    | inl e ↦ rw (e, update_member_role) h
    | inr (m, e) ↦
        rw (e, update_member_role)
          (modify-IsDistinct same_membership same_membership_comm db.members h id _ (λ v w. refl))
  ]

  pub delete_member-MembersDistinct : (id : String) → MembersDistinct (delete_member id db).1
  unfolding delete_member
  delete_member-MembersDistinct id =
      remove-IsDistinct same_membership same_membership_comm db.members h id
