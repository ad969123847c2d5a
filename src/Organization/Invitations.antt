-- ===== src/Organization/Invitations.antt =====
-- crates/api/src/plugins/organization/handlers/invitation.rs, over the in-memory store. A request
-- with one field is given by that field. The configured time to live is taken to fit the date
-- library's range.
pub mod Keeps
pub mod Settled
pub mod Accepted
use better_auth_rs_worker.Prelude.{
  ℕ, ◌+◌, ◌*◌, String, concat, Bool, true, false, not, ◌&&◌, Option, none, some, List, ◌==◌,
  if◌then◌else◌, filter, length, ltb, leb, is_some, is_none, and_then_some,
}
use better_auth_rs_worker.Error.{AuthError, AuthResult, ok, err, bad_request, forbidden, not_found}
use better_auth_rs_worker.Action.{Action, pure, raise, lift, ◌>>=◌, ◌>>◌}
use better_auth_rs_worker.Entity.{
  Instant, User, Session, Member, Invitation, CreateInvitation, InvitationStatus, pending, accepted,
  rejected, canceled,
}
use better_auth_rs_worker.Entity.Invitations.{is_pending}
use better_auth_rs_worker.Memory.{MemoryDatabaseAdapter}
use better_auth_rs_worker.Memory.UserOps.{get_user_by_id, get_user_by_email}
use better_auth_rs_worker.Memory.SessionOps.{update_session_active_organization}
use better_auth_rs_worker.Memory.OrganizationOps.{get_organization_by_id}
use better_auth_rs_worker.Memory.MemberOps.{create_member, get_member, list_organization_members}
use better_auth_rs_worker.Memory.InvitationOps.{
  create_invitation, get_invitation_by_id, update_invitation_status, list_organization_invitations,
  get_pending_invitation, list_user_invitations,
}
use better_auth_rs_worker.Organization.Rbac.{Resource, RbacAction}
use better_auth_rs_worker.Organization.Members.{found_or, guard, resolve_organization_id}
use better_auth_rs_worker.Organization.Requests.{
  OrganizationConfig, TextFunctions, InviteMemberRequest, AcceptInvitationResponse,
  GetInvitationResponse,
}
use better_auth_rs_worker.Organization.Handlers.{require_member, below, limit_text, permits}

-- `is_expired`
abbrev pub is_expired : Instant → Invitation → Bool
is_expired now i = ltb i.expires_at now

-- The `Debug` form of a status.
unfoldable pub debug_status : InvitationStatus → String
debug_status pending = "Pending"
debug_status accepted = "Accepted"
debug_status rejected = "Rejected"
debug_status canceled = "Canceled"

unfoldable pub get_invitation_core : String → Action MemoryDatabaseAdapter GetInvitationResponse
get_invitation_core id = do
  _ ← guard (not (id == "")) (bad_request "Missing invitation id")
  invitation ← get_invitation_by_id id
  invitation ← found_or (not_found "Invitation not found") invitation
  organization ← get_organization_by_id invitation.organization_id
  organization ← found_or (not_found "Organization not found") organization
  inviter ← get_user_by_id invitation.inviter_id
  pure (record {
    invitation = invitation;
    organization_name = organization.name;
    organization_slug = organization.slug;
    inviter_email = and_then_some inviter (λ u. u.email);
  })

unfoldable pub list_invitations_core :
    Option String → User → Session → Action MemoryDatabaseAdapter (List Invitation)
list_invitations_core organization_id user session = do
  org_id ← resolve_organization_id organization_id none session
  _ ← require_member org_id user
  list_organization_invitations org_id

module _ (texts : TextFunctions) (config : OrganizationConfig) where
  -- Whether the user with that address is a member.
  unfoldable pub already_member : String → String → Action MemoryDatabaseAdapter Bool
  already_member org_id email = do
    existing_user ← get_user_by_email email
    elim existing_user [
      | none ↦ pure false
      | some u ↦ (do found ← get_member org_id u.id; pure (is_some found))
    ]

  abbrev pub new_invitation : InviteMemberRequest → String → User → Instant → CreateInvitation
  new_invitation body org_id user now = record {
    organization_id = org_id;
    email = body.email;
    role = body.role;
    inviter_id = user.id;
    expires_at = now + config.invitation_expires_in * 1000000000;
  }

  -- `if let Some(existing) = .. { return Ok(existing) }`
  abbrev pub reuse_or :
      Option Invitation
      → Action MemoryDatabaseAdapter Invitation
      → Action MemoryDatabaseAdapter Invitation
  reuse_or (some existing) create = pure existing
  reuse_or none create = create

  -- The invitation that is pending already, or a new one.
  unfoldable pub invite :
      InviteMemberRequest
      → String
      → User
      → AuthResult String
      → Instant
      → Instant
      → Action MemoryDatabaseAdapter Invitation
  invite body org_id user generated now created = do
    existing ← get_pending_invitation texts.to_lowercase org_id body.email
    reuse_or existing (create_invitation (new_invitation body org_id user now) generated created)

  unfoldable pub invite_member_core :
      InviteMemberRequest
      → User
      → Session
      → AuthResult String
      → Instant
      → Instant
      → Action MemoryDatabaseAdapter Invitation
  invite_member_core body user session generated now created = do
    org_id ← resolve_organization_id body.organization_id none session
    member ← require_member org_id user
    _ ←
        guard (permits texts config member Resource.invitation RbacAction.create)
          (forbidden "You don't have permission to invite members")
    members ← list_organization_members org_id
    _ ←
        guard (below config.membership_limit (length members))
          (bad_request (limit_text texts.display config.membership_limit "Membership"))
    invitations ← list_organization_invitations org_id
    _ ←
        guard
          (below config.invitation_limit (length (filter (λ i. is_pending i.status) invitations)))
          (bad_request (limit_text texts.display config.invitation_limit "Pending invitation"))
    taken ← already_member org_id body.email
    _ ← guard (not taken) (bad_request "User is already a member")
    invite body org_id user generated now created

  unfoldable pub list_user_invitations_core :
      User → Instant → Instant → Action MemoryDatabaseAdapter (List Invitation)
  list_user_invitations_core user listed now = do
    user_email ← found_or (bad_request "User has no email") user.email
    all_invitations ← list_user_invitations texts.to_lowercase user_email listed
    pure (filter (λ i. is_pending i.status && not (is_expired now i)) all_invitations)

  -- The invitation, which must be addressed to the user.
  unfoldable pub addressed_invitation : String → User → Action MemoryDatabaseAdapter Invitation
  addressed_invitation invitation_id user = do
    invitation ← get_invitation_by_id invitation_id
    invitation ← found_or (not_found "Invitation not found") invitation
    user_email ← found_or (bad_request "User has no email") user.email
    _ ←
        guard (texts.to_lowercase invitation.email == texts.to_lowercase user_email)
          (forbidden "This invitation is not for you")
    pure invitation

  -- `accept_invitation_core` once the user is known not to be a member.
  unfoldable pub join :
      Invitation
      → User
      → Session
      → AuthResult String
      → Instant
      → Instant
      → Action MemoryDatabaseAdapter AcceptInvitationResponse
  join invitation user session generated joined now = do
    member ←
        create_member
          (record {
            organization_id = invitation.organization_id;
            user_id = user.id;
            role = invitation.role;
          })
          generated joined
    updated_invitation ← update_invitation_status invitation.id InvitationStatus.accepted
    _ ← update_session_active_organization session.token (some invitation.organization_id) now
    pure (record { invitation = updated_invitation; member = (member, user) })

  -- `accept_invitation_core` from the test for a membership on.
  unfoldable pub join_or_refuse :
      Invitation
      → User
      → Session
      → AuthResult String
      → Instant
      → Instant
      → Action MemoryDatabaseAdapter AcceptInvitationResponse
  join_or_refuse invitation user session generated joined now = do
    found ← get_member invitation.organization_id user.id
    elim found [
      | some _ ↦ (do
        _ ← update_invitation_status invitation.id InvitationStatus.accepted
        raise (bad_request "Already a member of this organization"))
      | none ↦ join invitation user session generated joined now
    ]

  unfoldable pub accept_invitation_core :
      String
      → User
      → Session
      → AuthResult String
      → Instant
      → Instant
      → Instant
      → Action MemoryDatabaseAdapter AcceptInvitationResponse
  accept_invitation_core invitation_id user session generated checked joined now = do
    invitation ← addressed_invitation invitation_id user
    _ ←
        guard (is_pending invitation.status)
          (bad_request (concat "Invitation is " (debug_status invitation.status)))
    _ ← guard (not (is_expired checked invitation)) (bad_request "Invitation has expired")
    members ← list_organization_members invitation.organization_id
    _ ←
        guard (below config.membership_limit (length members))
          (bad_request "Organization membership limit reached")
    join_or_refuse invitation user session generated joined now

  -- The test that an invitation is pending, and the change of its status.
  unfoldable pub settle : Invitation → InvitationStatus → Action MemoryDatabaseAdapter Unit
  settle invitation status = do
    _ ←
        guard (is_pending invitation.status)
          (bad_request (concat "Invitation is already " (debug_status invitation.status)))
    _ ← update_invitation_status invitation.id status
    pure tt

  unfoldable pub reject_invitation_core : String → User → Action MemoryDatabaseAdapter Unit
  reject_invitation_core invitation_id user = do
    invitation ← addressed_invitation invitation_id user
    settle invitation InvitationStatus.rejected

  unfoldable pub cancel_invitation_core : String → User → Action MemoryDatabaseAdapter Unit
  cancel_invitation_core invitation_id user = do
    invitation ← get_invitation_by_id invitation_id
    invitation ← found_or (not_found "Invitation not found") invitation
    member ← require_member invitation.organization_id user
    _ ←
        guard (permits texts config member Resource.invitation RbacAction.cancel)
          (forbidden "You don't have permission to cancel invitations")
    settle invitation InvitationStatus.canceled
