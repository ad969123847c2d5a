-- ===== src/Organization/Members.antt =====
-- crates/api/src/plugins/organization/handlers/member.rs, `remove_member_core` and
-- `update_member_role_core`, with `resolve_organization_id` of handlers/mod.rs, over the in-memory
-- store. A member's response carries the member and the user that its fields are taken from.
pub mod Owners
pub mod LastOwner
use better_auth_rs_worker.Prelude.{
  ℕ, String, Bool, true, false, not, ◌&&◌, ◌||◌, Option, none, some, List, ◌==◌, if◌then◌else◌,
  filter, length, leb, is_some,
}
use text.Mathlib.Text.{find?}
use better_auth_rs_worker.Error.{
  AuthError, AuthResult, ok, err, bad_request, forbidden, not_found, internal,
}
use better_auth_rs_worker.Action.{Action, pure, raise, lift, ◌>>=◌, ◌>>◌}
use better_auth_rs_worker.HashMap.{HashMap}
use better_auth_rs_worker.Entity.{User, Session, Member, Organization}
use better_auth_rs_worker.Memory.{MemoryDatabaseAdapter}
use better_auth_rs_worker.Memory.UserOps.{get_user_by_email, get_user_by_id}
use better_auth_rs_worker.Memory.OrganizationOps.{get_organization_by_slug}
use better_auth_rs_worker.Memory.MemberOps.{
  get_member, get_member_by_id, list_organization_members, delete_member, update_member_role,
}
use better_auth_rs_worker.Organization.Rbac.{
  Resource, RbacAction, RolePermissions, has_permission_any,
}

-- `option.ok_or_else(..)?`
abbrev pub found_or : {A : Type 0} → AuthError → Option A → Action MemoryDatabaseAdapter A
found_or e none = raise e
found_or e (some a) = pure a

-- `if !condition { return Err(..) }`
abbrev pub guard : Bool → AuthError → Action MemoryDatabaseAdapter Unit
guard true e = pure tt
guard false e = raise e

-- `role.contains("owner")`
abbrev pub is_owner_role : String → Bool
is_owner_role role = is_some (find? role "owner")

unfoldable pub resolve_organization_id :
    Option String → Option String → Session → Action MemoryDatabaseAdapter String
resolve_organization_id (some id) org_slug session = pure id
resolve_organization_id none (some slug) session = do
  org ← get_organization_by_slug slug
  org ← found_or (not_found "Organization not found") org
  pure org.id
resolve_organization_id none none session =
    found_or (bad_request "No active organization") session.active_organization_id

pub record RemoveMemberRequest : Type 0 where
  pub organization_id : Option String
  pub member_id : Option String
  pub email : Option String

pub record UpdateMemberRoleRequest : Type 0 where
  pub organization_id : Option String
  pub member_id : String
  pub role : String

-- `RemovedMemberInfo`
pub record RemovedMemberInfo : Type 0 where
  pub id : String
  pub user_id : String
  pub organization_id : String
  pub role : String

-- The target of a removal, by member id or by e-mail address.
unfoldable pub removal_target : RemoveMemberRequest → String → Action MemoryDatabaseAdapter Member
removal_target body org_id = elim body.member_id [
  | some member_id ↦ (do
    target ← get_member_by_id member_id
    found_or (not_found "Member not found") target)
  | none ↦ elim body.email [
    | some email ↦ (do
      user ← get_user_by_email email
      user ← found_or (not_found "User not found") user
      target ← get_member org_id user.id
      found_or (not_found "Member not found") target)
    | none ↦ raise (bad_request "Either memberId or email must be provided")
  ]
]

-- The members of the list whose role contains `owner`.
abbrev pub owner_count : List Member → ℕ
owner_count members = length (filter (λ m. is_owner_role m.role) members)

-- The test for the last owner, made where `applies`.
unfoldable pub not_last_owner : Bool → String → String → Action MemoryDatabaseAdapter Unit
not_last_owner applies org_id message =
    if applies
    then (do
      all_members ← list_organization_members org_id
      guard (not (leb (owner_count all_members) 1)) (bad_request message))
    else pure tt

module _ (split_trimmed : String → List String) (roles : HashMap RolePermissions) where
  -- `remove_member_core` once requester and target are known.
  unfoldable pub remove_target :
      String → User → Member → Member → Action MemoryDatabaseAdapter RemovedMemberInfo
  remove_target org_id user requester target = do
    _ ← guard (target.organization_id == org_id) (bad_request "Member not in this organization")
    _ ←
        guard
          ((target.user_id == user.id)
            || has_permission_any split_trimmed requester.role Resource.member RbacAction.delete
                roles)
          (forbidden "You don't have permission to remove members")
    _ ←
        not_last_owner (is_owner_role target.role) org_id
          "Cannot remove the last owner from an organization"
    _ ← delete_member target.id
    pure (record {
      id = target.id;
      user_id = target.user_id;
      organization_id = target.organization_id;
      role = target.role;
    })

  unfoldable pub remove_member_core :
      RemoveMemberRequest → User → Session → Action MemoryDatabaseAdapter RemovedMemberInfo
  remove_member_core body user session = do
    org_id ← resolve_organization_id body.organization_id none session
    requester ← get_member org_id user.id
    requester ← found_or (forbidden "Not a member of this organization") requester
    target ← removal_target body org_id
    remove_target org_id user requester target

  -- `update_member_role_core` once the target is known to exist.
  unfoldable pub update_target :
      UpdateMemberRoleRequest → String → Member → Action MemoryDatabaseAdapter (Member × User)
  update_target body org_id target = do
    _ ← guard (target.organization_id == org_id) (bad_request "Member not in this organization")
    _ ←
        not_last_owner (is_owner_role target.role && not (is_owner_role body.role)) org_id
          "Cannot demote the last owner. Transfer ownership first."
    updated ← update_member_role body.member_id body.role
    user_info ← get_user_by_id updated.user_id
    user_info ← found_or (internal "User not found for updated member") user_info
    pure (updated, user_info)

  unfoldable pub update_member_role_core :
      UpdateMemberRoleRequest → User → Session → Action MemoryDatabaseAdapter (Member × User)
  update_member_role_core body user session = do
    org_id ← resolve_organization_id body.organization_id none session
    requester ← get_member org_id user.id
    requester ← found_or (forbidden "Not a member of this organization") requester
    _ ←
        guard
          (has_permission_any split_trimmed requester.role Resource.member RbacAction.update roles)
          (forbidden "You don't have permission to update member roles")
    target ← get_member_by_id body.member_id
    target ← found_or (not_found "Member not found") target
    update_target body org_id target
