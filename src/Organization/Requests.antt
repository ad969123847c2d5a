-- ===== src/Organization/Requests.antt =====
-- crates/api/src/plugins/organization/types.rs and the configuration in mod.rs. A member's response
-- is the pair of the member and the user whose fields it shows.
use better_auth_rs_worker.Prelude.{ℕ, String, Bool, Option, List}
use better_auth_rs_worker.HashMap.{HashMap}
use better_auth_rs_worker.Entity.{Json, User, Member, Invitation, Organization}
use better_auth_rs_worker.Organization.Rbac.{RolePermissions}

pub record OrganizationConfig : Type 0 where
  pub allow_user_to_create_organization : Bool
  pub organization_limit : Option ℕ
  pub membership_limit : Option ℕ
  pub creator_role : String
  pub invitation_expires_in : ℕ
  pub invitation_limit : Option ℕ
  pub disable_organization_deletion : Bool
  pub roles : HashMap RolePermissions

-- Functions of the standard library on texts: Unicode `to_lowercase`, `split(',')` with `trim` on
-- each part, and the printer of numbers.
pub record TextFunctions : Type 0 where
  pub to_lowercase : String → String
  pub split_trimmed : String → List String
  pub display : ℕ → String

pub record CreateOrganizationRequest : Type 0 where
  pub name : String
  pub slug : String
  pub logo : Option String
  pub metadata : Option Json

pub record UpdateOrganizationRequest : Type 0 where
  pub name : Option String
  pub slug : Option String
  pub logo : Option String
  pub metadata : Option Json
  pub organization_id : Option String

pub record SetActiveOrganizationRequest : Type 0 where
  pub organization_id : Option String
  pub organization_slug : Option String

pub record GetFullOrganizationQuery : Type 0 where
  pub organization_id : Option String
  pub organization_slug : Option String

pub record InviteMemberRequest : Type 0 where
  pub email : String
  pub role : String
  pub organization_id : Option String

pub record ListMembersQuery : Type 0 where
  pub organization_id : Option String
  pub organization_slug : Option String
  pub limit : Option ℕ
  pub offset : Option ℕ

pub record HasPermissionRequest : Type 0 where
  pub permissions : HashMap (List String)
  pub organization_id : Option String

pub record HasPermissionResponse : Type 0 where
  pub success : Bool
  pub error : Option String

pub record CreateOrganizationResponse : Type 0 where
  pub organization : Organization
  pub members : List (Member × User)

pub record FullOrganizationResponse : Type 0 where
  pub organization : Organization
  pub members : List (Member × User)
  pub invitations : List Invitation

pub record AcceptInvitationResponse : Type 0 where
  pub invitation : Invitation
  pub member : Member × User

pub record ListMembersResponse : Type 0 where
  pub members : List (Member × User)
  pub total : ℕ

pub record GetInvitationResponse : Type 0 where
  pub invitation : Invitation
  pub organization_name : String
  pub organization_slug : String
  pub inviter_email : Option String
