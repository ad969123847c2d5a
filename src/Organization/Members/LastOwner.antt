-- ===== src/Organization/Members/LastOwner.antt =====
-- An organization that has an owner keeps one.
use better_auth_rs_worker.Prelude.{
  ◌≤◌, String, ◌≡◌, refl, Bool, true, not, ◌&&◌, ◌||◌, Option, none, some, List, ◌==◌, eq_iff,
  arith, find, inl, inr, Bool-cases, Option-cases,
}
use mathlib.Core.Path.{subst}
use better_auth_rs_worker.Error.{ok, AuthResult-cases}
use better_auth_rs_worker.HashMap.{HashMap, get, values}
use better_auth_rs_worker.HashMap.Count.{count-modify}
use better_auth_rs_worker.Entity.{User, Session, Member}
use better_auth_rs_worker.Memory.{MemoryDatabaseAdapter}
use better_auth_rs_worker.Memory.UserOps.{by_index, get_user_by_email, get_user_by_id}
use better_auth_rs_worker.Memory.MemberOps.{
  get_member, get_member_by_id, delete_member, update_member_role, is_member,
}
use better_auth_rs_worker.Organization.Rbac.{
  Resource, RbacAction, RolePermissions, has_permission_any,
}
use better_auth_rs_worker.Organization.Members.Owners.{
  MembersById, delete-owners, find_by_id, is_owner_of, owners, not_last_owner_store,
  not_last_owner_ok,
}
use better_auth_rs_worker.Organization.Members.{
  is_owner_role, not_last_owner, resolve_organization_id, removal_target, remove_target,
  remove_member_core, update_target, update_member_role_core, RemoveMemberRequest,
  UpdateMemberRoleRequest,
}

module _ (split_trimmed : String → List String) (roles : HashMap RolePermissions)
    (db : MemoryDatabaseAdapter) (h : MembersById db) (org : String) where
  remove_target-owners :
      (org_id : String) (user : User) (requester target : Member)
      → get target.id db.members ≡ some target
      → 1 ≤ owners org db
      → 1 ≤ owners org (remove_target split_trimmed roles org_id user requester target db).1
  unfolding remove_target delete_member
  remove_target-owners org_id user requester target e one =
      let last_owner : String = "Cannot remove the last owner from an organization" in
      elim (Bool-cases (target.organization_id == org_id)) [
        | inr q ↦ ground arith
        | inl q ↦
            elim (Bool-cases (
              target.user_id == user.id
              || has_permission_any split_trimmed requester.role Resource.member RbacAction.delete
                  roles)) [
                    | inr r ↦ ground arith
                    | inl r ↦
                        elim (AuthResult-cases
                          (not_last_owner (is_owner_role target.role) org_id last_owner db).0) [
                            | inr (f, n) ↦ ground (
                              arith,
                              not_last_owner_store (is_owner_role target.role) org_id last_owner db,
                            )
                            | inl (_, y) ↦
                                let deleted : (remove_target split_trimmed roles org_id user
                                      requester target db).1
                                    ≡ (delete_member target.id db).1 =
                                  ground (
                                    arith,
                                    not_last_owner_store (is_owner_role target.role) org_id
                                        last_owner db,
                                  ) in
                                rw deleted (
                                  delete-owners db h org target e
                                    (λ o.
                                      let same : org_id ≡ org = ground (
                                        arith,
                                        eq_iff target.organization_id org_id,
                                        eq_iff target.organization_id org,
                                      ) in
                                      subst (λ x. 2 ≤ owners x db) same
                                        (not_last_owner_ok (is_owner_role target.role) org_id
                                          last_owner db y (ground arith)))
                                    one)
                          ]
                  ]
      ]

  update-owners :
      (id role : String) (target : Member)
      → get id db.members ≡ some target
      → (is_owner_of org target && not (is_owner_role role) ≡ true → 2 ≤ owners org db)
      → 1 ≤ owners org db
      → 1 ≤ owners org (update_member_role id role db).1
  unfolding update_member_role
  update-owners id role target e others one = ground (
    arith,
    others,
    count-modify (is_owner_of org) db.members id target (λ m. record m { role = role }) h.unique e,
  )

  update_target-owners :
      (body : UpdateMemberRoleRequest) (org_id : String) (target : Member)
      → get body.member_id db.members ≡ some target
      → 1 ≤ owners org db
      → 1 ≤ owners org (update_target split_trimmed roles body org_id target db).1
  unfolding update_target update_member_role get_user_by_id
  update_target-owners body org_id target e one =
      let message : String = "Cannot demote the last owner. Transfer ownership first." in
      let applies : Bool = is_owner_role target.role && not (is_owner_role body.role) in
      elim (Bool-cases (target.organization_id == org_id)) [
        | inr q ↦ ground arith
        | inl q ↦ elim (AuthResult-cases (not_last_owner applies org_id message db).0) [
          | inr (f, n) ↦ ground (arith, not_last_owner_store applies org_id message db)
          | inl (_, y) ↦
              let updated : (update_target split_trimmed roles body org_id target db).1
                  ≡ (update_member_role body.member_id body.role db).1 =
                elim (Option-cases (get target.user_id db.users)) [
                  | inl g ↦ ground (arith, not_last_owner_store applies org_id message db)
                  | inr (w, g) ↦ ground (arith, not_last_owner_store applies org_id message db)
                ] in
              rw updated (
                update-owners body.member_id body.role target e
                  (λ o.
                    let same : org_id ≡ org = ground (
                      arith,
                      eq_iff target.organization_id org_id,
                      eq_iff target.organization_id org,
                    ) in
                    subst (λ x. 2 ≤ owners x db) same
                      (not_last_owner_ok applies org_id message db y (ground arith)))
                  one)
        ]
      ]

  resolve_store :
      (id : Option String) (session : Session) → (resolve_organization_id id none session db).1 ≡ db
  unfolding resolve_organization_id
  resolve_store (some id) session = refl
  resolve_store none session = ground (arith, Option-cases session.active_organization_id)

  removal_target_stored :
      (body : RemoveMemberRequest) (org_id : String)
      → ((removal_target body org_id db).1 ≡ db)
        × ((target : Member)
            → (removal_target body org_id db).0 ≡ ok target
            → get target.id db.members ≡ some target)
  unfolding removal_target get_member_by_id get_member get_user_by_email
  removal_target_stored body org_id = elim (Option-cases body.member_id) [
    | inr (id, q) ↦ elim (Option-cases (get id db.members)) [
      | inl n ↦ (ground arith, λ target e. ground arith)
      | inr (m, g) ↦ (ground arith, λ target e. ground (arith, h.by_id id m g))
    ]
    | inl q ↦ elim (Option-cases body.email) [
      | inl n ↦ (ground arith, λ target e. ground arith)
      | inr (email, r) ↦ elim (Option-cases (by_index email db.email_index db.users)) [
        | inl n ↦ (ground arith, λ target e. ground arith)
        | inr (user, s) ↦
            elim (Option-cases (find (is_member org_id user.id) (values db.members))) [
              | inl n ↦ (ground arith, λ target e. ground arith)
              | inr (m, f) ↦ (
                ground arith,
                λ target e. ground (arith, find_by_id db h org (is_member org_id user.id) m f),
              )
            ]
      ]
    ]
  ]

  -- If members are stored once, under their ids, and an organization has a member whose role
  -- contains `owner`, it has one after a call of the removal handler, whatever the request, the
  -- requester, the session and the configured roles, and whether the call succeeds or fails.
  pub remove_member_core-owners :
      (body : RemoveMemberRequest) (user : User) (session : Session)
      → 1 ≤ owners org db
      → 1 ≤ owners org (remove_member_core split_trimmed roles body user session db).1
  unfolding remove_member_core get_member
  remove_member_core-owners body user session one =
      elim (AuthResult-cases (resolve_organization_id body.organization_id none session db).0) [
        | inr (f, n) ↦ ground (arith, resolve_store body.organization_id session)
        | inl (org_id, r) ↦
            elim (Option-cases (find (is_member org_id user.id) (values db.members))) [
              | inl n ↦ ground (arith, resolve_store body.organization_id session)
              | inr (requester, q) ↦
                  let (keeps, stored) = removal_target_stored body org_id in
                  elim (AuthResult-cases (removal_target body org_id db).0) [
                    | inr (f, n) ↦ ground (arith, resolve_store body.organization_id session, keeps)
                    | inl (target, t) ↦
                        let step : (remove_member_core split_trimmed roles body user session db).1
                            ≡ (remove_target split_trimmed roles org_id user requester target
                                db).1 =
                          ground (arith, resolve_store body.organization_id session, keeps) in
                        rw step
                          (remove_target-owners org_id user requester target (stored target t) one)
                  ]
            ]
      ]

  -- If members are stored once, under their ids, and an organization has a member whose role
  -- contains `owner`, it has one after a call of the handler that changes a role, whatever the
  -- request, the requester, the session and the configured roles, and whether the call succeeds
  -- or fails.
  pub update_member_role_core-owners :
      (body : UpdateMemberRoleRequest) (user : User) (session : Session)
      → 1 ≤ owners org db
      → 1 ≤ owners org (update_member_role_core split_trimmed roles body user session db).1
  unfolding update_member_role_core get_member get_member_by_id
  update_member_role_core-owners body user session one =
      elim (AuthResult-cases (resolve_organization_id body.organization_id none session db).0) [
        | inr (f, n) ↦ ground (arith, resolve_store body.organization_id session)
        | inl (org_id, r) ↦
            elim (Option-cases (find (is_member org_id user.id) (values db.members))) [
              | inl n ↦ ground (arith, resolve_store body.organization_id session)
              | inr (requester, q) ↦
                  elim (Bool-cases (
                    has_permission_any split_trimmed requester.role Resource.member
                      RbacAction.update roles)) [
                        | inr n ↦ ground (arith, resolve_store body.organization_id session)
                        | inl p ↦ elim (Option-cases (get body.member_id db.members)) [
                          | inl n ↦ ground (arith, resolve_store body.organization_id session)
                          | inr (target, t) ↦
                              let step : (update_member_role_core split_trimmed roles body user
                                    session db).1
                                  ≡ (update_target split_trimmed roles body org_id target db).1 =
                                ground (arith, resolve_store body.organization_id session) in
                              rw step (update_target-owners body org_id target t one)
                        ]
                      ]
            ]
      ]
