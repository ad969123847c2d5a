-- ===== src/Organization/Administration.antt =====
-- crates/api/src/plugins/organization/handlers/org.rs, the creation, the update and the deletion of
-- an organization, and `has_permission_core` of mod.rs with the parsers of rbac.rs.
use better_auth_rs_worker.Prelude.{
  String, Bool, false, not, Option, none, some, List, [], ◌∷◌, ◌==◌, if◌then◌else◌, length, is_none,
  all,
}
use better_auth_rs_worker.Error.{AuthResult, bad_request, forbidden}
use better_auth_rs_worker.Action.{Action, pure, ◌>>=◌}
use better_auth_rs_worker.Entity.{Instant, User, Session, Member, Organization}
use better_auth_rs_worker.Memory.{MemoryDatabaseAdapter}
use better_auth_rs_worker.Memory.OrganizationOps.{
  create_organization, get_organization_by_slug, update_organization, delete_organization,
  list_user_organizations,
}
use better_auth_rs_worker.Memory.MemberOps.{create_member}
use better_auth_rs_worker.Organization.Rbac.{Resource, RbacAction}
use better_auth_rs_worker.Organization.Members.{guard, resolve_organization_id}
use better_auth_rs_worker.Organization.Requests.{
  OrganizationConfig, TextFunctions, CreateOrganizationRequest, UpdateOrganizationRequest,
  HasPermissionRequest, HasPermissionResponse, CreateOrganizationResponse,
}
use better_auth_rs_worker.Organization.Handlers.{require_member, below, limit_text, permits}

-- `Resource::parse` and `Action::parse`, of the lower-case text
unfoldable pub parse_resource : (String → String) → String → Option Resource
parse_resource to_lowercase s =
    let name : String = to_lowercase s in
    if name == "organization"
    then some Resource.organization
    else if name == "member"
    then some Resource.member
    else if name == "invitation"
    then some Resource.invitation
    else none

unfoldable pub parse_action : (String → String) → String → Option RbacAction
parse_action to_lowercase s =
    let name : String = to_lowercase s in
    if name == "create"
    then some RbacAction.create
    else if name == "read"
    then some RbacAction.read
    else if name == "update"
    then some RbacAction.update
    else if name == "delete"
    then some RbacAction.delete
    else if name == "cancel"
    then some RbacAction.cancel
    else none

module _ (texts : TextFunctions) (config : OrganizationConfig) where
  unfoldable pub create_organization_core :
      CreateOrganizationRequest
      → User
      → AuthResult String
      → AuthResult String
      → Instant
      → Instant
      → Action MemoryDatabaseAdapter CreateOrganizationResponse
  create_organization_core body user organization_id member_id created joined = do
    _ ←
        guard config.allow_user_to_create_organization
          (forbidden "Organization creation is not allowed")
    user_orgs ← list_user_organizations user.id
    _ ←
        guard (below config.organization_limit (length user_orgs))
          (bad_request (limit_text texts.display config.organization_limit "Organization"))
    found ← get_organization_by_slug body.slug
    _ ← guard (is_none found) (bad_request "Slug is already taken")
    organization ←
        create_organization
          (record {
            id = none;
            name = body.name;
            slug = body.slug;
            logo = body.logo;
            metadata = body.metadata;
          })
          organization_id created
    member ←
        create_member
          (record {
            organization_id = organization.id;
            user_id = user.id;
            role = config.creator_role;
          })
          member_id joined
    pure (record { organization = organization; members = (member, user) ∷ [] })

  -- The slug of a request that another organization has.
  unfoldable pub slug_taken : Option String → String → Action MemoryDatabaseAdapter Bool
  slug_taken none org_id = pure false
  slug_taken (some new_slug) org_id = do
    found ← get_organization_by_slug new_slug
    pure (elim found [ none ↦ false | some existing ↦ not (existing.id == org_id) ])

  unfoldable pub update_organization_core :
      UpdateOrganizationRequest
      → User
      → Session
      → Instant
      → Action MemoryDatabaseAdapter Organization
  update_organization_core body user session now = do
    org_id ← resolve_organization_id body.organization_id none session
    member ← require_member org_id user
    _ ←
        guard (permits texts config member Resource.organization RbacAction.update)
          (forbidden "You don't have permission to update this organization")
    taken ← slug_taken body.slug org_id
    _ ← guard (not taken) (bad_request "Slug is already taken")
    update_organization org_id
        (record { name = body.name; slug = body.slug; logo = body.logo; metadata = body.metadata })
        now

  unfoldable pub delete_organization_core : String → User → Action MemoryDatabaseAdapter Unit
  delete_organization_core organization_id user = do
    _ ←
        guard (not config.disable_organization_deletion)
          (forbidden "Organization deletion is disabled")
    member ← require_member organization_id user
    _ ←
        guard (permits texts config member Resource.organization RbacAction.delete)
          (forbidden "You don't have permission to delete this organization")
    delete_organization organization_id

  -- Whether one entry of the requested permissions holds.
  abbrev holds_entry : Member → String × List String → Bool
  holds_entry member (resource_str, actions) =
      elim (parse_resource texts.to_lowercase resource_str) [
        | none ↦ false
        | some resource ↦
            all
              (λ action_str. elim (parse_action texts.to_lowercase action_str) [
                | none ↦ false
                | some action ↦ permits texts config member resource action
              ])
              actions
      ]

  unfoldable pub has_permission_core :
      HasPermissionRequest → User → Session → Action MemoryDatabaseAdapter HasPermissionResponse
  has_permission_core body user session = do
    org_id ← resolve_organization_id body.organization_id none session
    member ← require_member org_id user
    let has_all_permissions : Bool = all (holds_entry member) body.permissions
    pure (record {
      success = has_all_permissions;
      error = if has_all_permissions then none else some "Permission denied";
    })
