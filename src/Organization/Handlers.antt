-- ===== src/Organization/Handlers.antt =====
-- crates/api/src/plugins/organization/handlers/org.rs, except what needs a permission, and
-- the listing operations of member.rs, over the in-memory store. A request or an answer with one field
-- is given by that field.
pub mod Leave
use better_auth_rs_worker.Prelude.{skip, take}
use better_auth_rs_worker.Prelude.{
  ℕ, zero, suc, String, concat, Bool, true, false, not, ◌&&◌, ◌||◌, Option, none, some, List, [],
  ◌∷◌, ◌==◌, if◌then◌else◌, length, leb, is_some, is_none, get_or, all,
}
use better_auth_rs_worker.Error.{AuthError, AuthResult, ok, err, bad_request, forbidden, not_found}
use better_auth_rs_worker.Action.{Action, pure, raise, lift, ◌>>=◌, ◌>>◌}
use better_auth_rs_worker.HashMap.{HashMap, get}
use better_auth_rs_worker.Entity.{
  Instant, User, Session, Member, Organization, CreateMember, CreateOrganization,
  UpdateOrganization,
}
use better_auth_rs_worker.Memory.{MemoryDatabaseAdapter}
use better_auth_rs_worker.Memory.UserOps.{get_user_by_id}
use better_auth_rs_worker.Memory.SessionOps.{update_session_active_organization}
use better_auth_rs_worker.Memory.OrganizationOps.{
  create_organization, get_organization_by_id, get_organization_by_slug, update_organization,
  delete_organization, list_user_organizations,
}
use better_auth_rs_worker.Memory.MemberOps.{
  create_member, get_member, list_organization_members, delete_member,
}
use better_auth_rs_worker.Memory.InvitationOps.{list_organization_invitations}
use better_auth_rs_worker.Organization.Rbac.{Resource, RbacAction, has_permission_any}
use better_auth_rs_worker.Organization.Members.{
  found_or, guard, is_owner_role, not_last_owner, resolve_organization_id,
}
use better_auth_rs_worker.Organization.Requests.{
  OrganizationConfig, TextFunctions, CreateOrganizationRequest, UpdateOrganizationRequest,
  SetActiveOrganizationRequest, GetFullOrganizationQuery, ListMembersQuery, HasPermissionRequest,
  HasPermissionResponse, CreateOrganizationResponse, FullOrganizationResponse, ListMembersResponse,
}

-- The member that the user is of the organization.
unfoldable pub require_member : String → User → Action MemoryDatabaseAdapter Member
require_member org_id user = do
  member ← get_member org_id user.id
  found_or (forbidden "Not a member of this organization") member

-- A count that is below its limit, where there is one.
abbrev pub below : Option ℕ → ℕ → Bool
below none n = true
below (some limit) n = not (leb limit n)

-- The limit in the text of an error; the text is empty where there is no limit.
abbrev pub limit_text : (ℕ → String) → Option ℕ → String → String
limit_text display none subject = ""
limit_text display (some limit) subject =
    concat subject (concat " limit of " (concat (display limit) " reached"))

-- The loop over members that leaves out those whose user is gone.
unfoldable pub with_users : HashMap User → List Member → List (Member × User)
with_users users [] = []
with_users users (m ∷ ms) =
    let rest : List (Member × User) = with_users users ms in
    elim (get m.user_id users) [ none ↦ rest | some user ↦ (m, user) ∷ rest ]

abbrev pub members_with_users : List Member → Action MemoryDatabaseAdapter (List (Member × User))
members_with_users ms db = (ok (with_users db.users ms), db)

unfoldable pub list_organizations_core : User → Action MemoryDatabaseAdapter (List Organization)
list_organizations_core user = list_user_organizations user.id

unfoldable pub get_full_organization_core :
    GetFullOrganizationQuery
    → User
    → Session
    → Action MemoryDatabaseAdapter FullOrganizationResponse
get_full_organization_core query user session = do
  org_id ← resolve_organization_id query.organization_id query.organization_slug session
  _ ← require_member org_id user
  organization ← get_organization_by_id org_id
  organization ← found_or (not_found "Organization not found") organization
  members_raw ← list_organization_members org_id
  members ← members_with_users members_raw
  invitations ← list_organization_invitations org_id
  pure (record { organization = organization; members = members; invitations = invitations })

unfoldable pub check_slug_core : String → Action MemoryDatabaseAdapter Bool
check_slug_core slug = do found ← get_organization_by_slug slug; pure (is_none found)

-- The organization that a request to switch names, if any.
abbrev requested_organization :
    SetActiveOrganizationRequest → Session → Action MemoryDatabaseAdapter (Option String)
requested_organization body session =
    if is_some body.organization_id || is_some body.organization_slug
    then (do
      org_id ← resolve_organization_id body.organization_id body.organization_slug session
      pure (some org_id))
    else pure none

-- A named organization must have the user as a member.
abbrev require_membership : Option String → User → Action MemoryDatabaseAdapter Unit
require_membership none user = pure tt
require_membership (some org_id) user = do _ ← require_member org_id user; pure tt

unfoldable pub set_active_organization_core :
    SetActiveOrganizationRequest → User → Session → Instant → Action MemoryDatabaseAdapter Session
set_active_organization_core body user session now = do
  org_id ← requested_organization body session
  _ ← require_membership org_id user
  update_session_active_organization session.token org_id now

-- `session.active_organization_id() == Some(&organization_id)`
abbrev pub is_active : Session → String → Bool
is_active session organization_id = elim session.active_organization_id [
  | none ↦ false
  | some id ↦ id == organization_id
]

-- The session leaves its active organization, where `applies`.
unfoldable pub clear_active : Bool → Session → Instant → Action MemoryDatabaseAdapter Unit
clear_active applies session now =
    if applies
    then (do _ ← update_session_active_organization session.token none now; pure tt)
    else pure tt

unfoldable pub leave_organization_core :
    String → User → Session → Instant → Action MemoryDatabaseAdapter Unit
leave_organization_core organization_id user session now = do
  member ← require_member organization_id user
  _ ←
      not_last_owner (is_owner_role member.role) organization_id
        "Cannot leave organization as the last owner. Delete the organization or transfer ownership first."
  _ ← delete_member member.id
  clear_active (is_active session organization_id) session now

unfoldable pub get_active_member_core :
    User → Session → Action MemoryDatabaseAdapter (Member × User)
get_active_member_core user session = do
  org_id ← found_or (bad_request "No active organization") session.active_organization_id
  member ← require_member org_id user
  pure (member, user)

-- `min` of two numbers
abbrev min : ℕ → ℕ → ℕ
min a b = if leb a b then a else b

unfoldable pub list_members_core :
    ListMembersQuery → User → Session → Action MemoryDatabaseAdapter ListMembersResponse
list_members_core query user session = do
  org_id ← resolve_organization_id query.organization_id query.organization_slug session
  _ ← require_member org_id user
  members_raw ← list_organization_members org_id
  members ←
      members_with_users
        (take (min (get_or query.limit 50) 100) (skip (get_or query.offset 0) members_raw))
  pure (record { members = members; total = length members_raw })

module _ (texts : TextFunctions) (config : OrganizationConfig) where
  unfoldable pub permits : Member → Resource → RbacAction → Bool
  permits member resource action =
      has_permission_any texts.split_trimmed member.role resource action config.roles
