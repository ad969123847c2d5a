-- ===== src/Examples/Invitations.antt =====
-- Runs of the organization and invitation handlers: an invited user joins, and the owner stays.
use better_auth_rs_worker.Prelude.{
  ◌≤◌, String, ◌≡◌, refl, true, false, none, some, [], ◌∷◌, arith, eq_iff,
}
use better_auth_rs_worker.Error.{ok}
use better_auth_rs_worker.HashMap.{get, insert, modify}
use better_auth_rs_worker.Entity.{Member, User, Session, Invitation, InvitationStatus}
use better_auth_rs_worker.Entity.Members
use better_auth_rs_worker.Entity.Users.{from_create}
use better_auth_rs_worker.Memory.{MemoryDatabaseAdapter, new}
use better_auth_rs_worker.Memory.InvitationOps.{get_invitation_by_id, update_invitation_status}
use better_auth_rs_worker.Memory.MemberOps.{get_member, list_organization_members, create_member}
use better_auth_rs_worker.Memory.SessionOps.{update_session_active_organization}
use better_auth_rs_worker.Organization.Members.Owners.{MembersById, owners}
use better_auth_rs_worker.Organization.Handlers.{leave_organization_core}
use better_auth_rs_worker.Organization.Handlers.Leave.{leave_organization_core-owners}
use better_auth_rs_worker.Organization.Requests.{
  TextFunctions, OrganizationConfig, AcceptInvitationResponse,
}
use better_auth_rs_worker.Organization.Invitations.{
  accept_invitation_core, reject_invitation_core, addressed_invitation, join, join_or_refuse,
}
use better_auth_rs_worker.Organization.Invitations.Settled.{InvitationsById, IsSettled}
use better_auth_rs_worker.Organization.Invitations.Settled.Runs.{
  start, next, accepts, rejects, Steps-IsSettled,
}
use better_auth_rs_worker.Organization.Invitations.Accepted.{
  IsAccepted, accept_invitation_core-IsAccepted,
}

-- Texts in lower case, and roles with one part.
abbrev plain_texts : TextFunctions
plain_texts = record { to_lowercase = λ s. s; split_trimmed = λ s. s ∷ []; display = λ n. "100" }

abbrev usual : OrganizationConfig
usual = record {
  allow_user_to_create_organization = true;
  organization_limit = none;
  membership_limit = some 100;
  creator_role = "owner";
  invitation_expires_in = 172800;
  invitation_limit = some 100;
  disable_organization_deletion = false;
  roles = [];
}

abbrev person : String → String → User
person id email =
    from_create id
      (record {
        id = none;
        email = some email;
        name = none;
        image = none;
        email_verified = none;
        password = none;
        username = none;
        display_username = none;
        role = none;
        metadata = none;
      })
      1

abbrev bob : User
bob = person "u2" "bob@example.com"

abbrev session_of : String → String → Session
session_of token user_id = record {
  id = token;
  expires_at = 100;
  token = token;
  created_at = 1;
  updated_at = 1;
  ip_address = none;
  user_agent = none;
  user_id = user_id;
  impersonated_by = none;
  active_organization_id = some "o1";
  active = true;
}

abbrev owner : Member
owner = record { id = "m1"; organization_id = "o1"; user_id = "u1"; role = "owner"; created_at = 1 }

abbrev open_invitation : Invitation
open_invitation = record {
  id = "i1";
  organization_id = "o1";
  email = "bob@example.com";
  role = "member";
  status = InvitationStatus.pending;
  inviter_id = "u1";
  expires_at = 50;
  created_at = 1;
}

abbrev invited : MemoryDatabaseAdapter
invited = record new {
  members = ("m1", owner) ∷ [];
  sessions = ("t2", session_of "t2" "u2") ∷ [];
  invitations = ("i1", open_invitation) ∷ [];
}

invited-MembersById : MembersById invited
unfolding get
invited-MembersById = record { unique = (refl, tt); by_id = λ k m e. ground (arith, eq_iff "m1" k) }

leave_organization_core-owners_example :
    1
    ≤ owners "o1"
        (leave_organization_core "o1"
          (person "u1" "alice@example.com")
          (session_of "t1" "u1")
          9
          invited).1
leave_organization_core-owners_example =
    leave_organization_core-owners invited invited-MembersById "o1" "o1"
      (person "u1" "alice@example.com") (session_of "t1" "u1") 9 (omega arith)

invited-InvitationsById : InvitationsById invited
unfolding get
invited-InvitationsById k i e = ground (arith, eq_iff "i1" k)

abbrev joined : AcceptInvitationResponse
joined = record {
  invitation = record open_invitation { status = InvitationStatus.accepted };
  member = (
    record { id = "m2"; organization_id = "o1"; user_id = "u2"; role = "member"; created_at = 11 },
    bob,
  );
}

accepted_run :
    (accept_invitation_core plain_texts usual "i1" bob
      (session_of "t2" "u2")
      (ok "m2")
      10
      11
      12
      invited).0
    ≡ ok joined
unfolding accept_invitation_core addressed_invitation join join_or_refuse get insert modify
    get_invitation_by_id get_member list_organization_members create_member update_invitation_status
    update_session_active_organization from_create Members.from_create
accepted_run = refl

accept_invitation_core-IsAccepted_example :
    (i : Invitation) × IsAccepted plain_texts usual bob 10 invited "i1" i joined.member.0
      (accept_invitation_core plain_texts usual "i1" bob
        (session_of "t2" "u2")
        (ok "m2")
        10
        11
        12
        invited).1
accept_invitation_core-IsAccepted_example =
    accept_invitation_core-IsAccepted plain_texts usual bob 10 invited "i1" (session_of "t2" "u2")
      (ok "m2") 11 12 joined invited-InvitationsById accepted_run

abbrev canceled_invitation : Invitation
canceled_invitation = record open_invitation { status = InvitationStatus.canceled }

abbrev withdrawn : MemoryDatabaseAdapter
withdrawn = record invited { invitations = ("i1", canceled_invitation) ∷ [] }

withdrawn-IsSettled : IsSettled plain_texts usual "i1" canceled_invitation withdrawn
unfolding get
withdrawn-IsSettled = record {
  by_id = λ k i e. ground (arith, eq_iff "i1" k);
  stored = refl;
  settled = refl;
}

abbrev tried : MemoryDatabaseAdapter
tried =
    (accept_invitation_core plain_texts usual "i1" bob (session_of "t2" "u2") (ok "m2") 10 11 12
      withdrawn).1

Steps-IsSettled_example :
    IsSettled plain_texts usual "i1" canceled_invitation
      (reject_invitation_core plain_texts usual "i1" bob tried).1
Steps-IsSettled_example =
    Steps-IsSettled plain_texts usual "i1" canceled_invitation withdrawn-IsSettled (
      next (next start (accepts "i1" bob (session_of "t2" "u2") (ok "m2") 10 11 12))
        (rejects "i1" bob))
