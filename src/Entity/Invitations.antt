-- ===== src/Entity/Invitations.antt =====
-- Invitations to an organization.
use better_auth_rs_worker.Prelude.{String, Bool, true, false}
use better_auth_rs_worker.Entity.Base.{Instant}

pub data InvitationStatus : Type 0 where
  pending accepted rejected canceled : InvitationStatus

-- `*status() == InvitationStatus::Pending`
abbrev pub is_pending : InvitationStatus → Bool
is_pending pending = true
is_pending accepted = false
is_pending rejected = false
is_pending canceled = false

pub record Invitation : Type 0 where
  pub id : String
  pub organization_id : String
  pub email : String
  pub role : String
  pub status : InvitationStatus
  pub inviter_id : String
  pub expires_at : Instant
  pub created_at : Instant

pub record CreateInvitation : Type 0 where
  pub organization_id : String
  pub email : String
  pub role : String
  pub inviter_id : String
  pub expires_at : Instant

-- `MemoryInvitation::from_create`
unfoldable pub from_create : String → CreateInvitation → Instant → Invitation
from_create id create now = record {
  id = id;
  organization_id = create.organization_id;
  email = create.email;
  role = create.role;
  status = pending;
  inviter_id = create.inviter_id;
  expires_at = create.expires_at;
  created_at = now;
}
