-- ===== src/Organization/Invitations/Accepted.antt =====
-- What a successful acceptance of an invitation requires and does.
use better_auth_rs_worker.Prelude.{
  String, ◌≡◌, true, false, not, some, arith, inl, inr, Option-cases, Bool-cases, ◌==◌, eq_iff,
  find, any, length, filter,
}
use better_auth_rs_worker.Error.{AuthError, AuthResult, ok, err, AuthResult-cases}
use better_auth_rs_worker.HashMap.{get, values}
use better_auth_rs_worker.HashMap.Laws.{get-insert_self}
use better_auth_rs_worker.Entity.{
  Instant, User, Session, Member, CreateMember, Invitation, InvitationStatus,
}
use better_auth_rs_worker.Entity.Members.{from_create}
use better_auth_rs_worker.Entity.Invitations.{is_pending}
use better_auth_rs_worker.Memory.{MemoryDatabaseAdapter}
use better_auth_rs_worker.Memory.MemberOps.{
  create_member, get_member, is_member, list_organization_members,
}
use better_auth_rs_worker.Memory.InvitationOps.{update_invitation_status}
use better_auth_rs_worker.Memory.SessionOps.{update_session_active_organization}
use better_auth_rs_worker.Organization.Handlers.{below}
use better_auth_rs_worker.Organization.Requests.{
  TextFunctions, OrganizationConfig, AcceptInvitationResponse,
}
use better_auth_rs_worker.Organization.Invitations.{
  is_expired, join, join_or_refuse, accept_invitation_core, addressed_invitation,
}
use better_auth_rs_worker.Organization.Invitations.Keeps.{
  guard-then, call-then, create_member_invitations, update_session_active_organization_invitations,
  get-update_invitation_status, addressed_invitation_lem,
}
use better_auth_rs_worker.Organization.Invitations.Settled.{InvitationsById}

module _ (texts : TextFunctions) (config : OrganizationConfig) (user : User) (checked : Instant)
    (db : MemoryDatabaseAdapter) where
  -- The invitation under `id` before the call, and the store after it with its new member.
  pub record IsAccepted (id : String) (i : Invitation) (member : Member)
      (db' : MemoryDatabaseAdapter) : Type 0 where
    pub stored : get id db.invitations ≡ some i
    pub was_pending : is_pending i.status ≡ true
    pub live : is_expired checked i ≡ false
    pub address : String
    pub has_address : user.email ≡ some address
    pub addressed : texts.to_lowercase i.email ≡ texts.to_lowercase address
    pub new : any (is_member i.organization_id user.id) (values db.members) ≡ false
    pub marked : get id db'.invitations ≡ some (record i { status = InvitationStatus.accepted })
    pub joined : get member.id db'.members ≡ some member
    pub membership :
        (member.organization_id ≡ i.organization_id)
        × (member.user_id ≡ user.id)
        × (member.role ≡ i.role)

  create_member_ok :
      (create : CreateMember) (generated : AuthResult String) (now : Instant) (member : Member)
      → (create_member create generated now db).0 ≡ ok member
      → (any (is_member create.organization_id create.user_id) (values db.members) ≡ false)
        × (get member.id (create_member create generated now db).1.members ≡ some member)
        × (member.organization_id ≡ create.organization_id)
        × (member.user_id ≡ create.user_id)
        × (member.role ≡ create.role)
  unfolding create_member from_create
  create_member_ok create generated now member e =
      elim (Bool-cases
        (any (is_member create.organization_id create.user_id) (values db.members))) [
          | inl q ↦ absurd (ground arith)
          | inr q ↦ elim (AuthResult-cases generated) [
            | inr (f, g) ↦ absurd (ground arith)
            | inl (id, g) ↦
                let m : Member = from_create id create now in
                let same : member ≡ m = ground arith in
                (
                  q,
                  ground (arith, get-insert_self id m db.members),
                  ground arith,
                  ground arith,
                  ground arith,
                )
          ]
        ]

  -- What is claimed of an answer and the store with it.
  abbrev Accepts : String → AuthResult AcceptInvitationResponse × MemoryDatabaseAdapter → Type 0
  Accepts id (r, db') =
      (response : AcceptInvitationResponse)
      → r ≡ ok response
      → (i : Invitation) × IsAccepted id i response.member.0 db'

  refused-Accepts :
      (id : String) (e : AuthError) (db' : MemoryDatabaseAdapter) → Accepts id (err e, db')
  refused-Accepts id e db' response q = absurd (ground arith)

  update_invitation_status_members :
      (id : String) (status : InvitationStatus) (db' : MemoryDatabaseAdapter)
      → (update_invitation_status id status db').1.members ≡ db'.members
  unfolding update_invitation_status
  update_invitation_status_members id status db' =
      ground (arith, Option-cases (get id db'.invitations))

  module _ (id : String) (i : Invitation) (by_id : i.id ≡ id)
      (stored : get id db.invitations ≡ some i) (was_pending : is_pending i.status ≡ true)
      (live : is_expired checked i ≡ false) (address : String)
      (has_address : user.email ≡ some address)
      (addressed : texts.to_lowercase i.email ≡ texts.to_lowercase address) (session : Session)
      (generated : AuthResult String) (joined now : Instant) where
    join-Accepts : Accepts id (join texts config i user session generated joined now db)
    unfolding join
    join-Accepts =
        let create : CreateMember = record {
          organization_id = i.organization_id;
          user_id = user.id;
          role = i.role;
        } in
        let (r, db1) = create_member create generated joined db in
        let (s, db2) = update_invitation_status i.id InvitationStatus.accepted db1 in
        let (u, db3) =
          update_session_active_organization session.token (some i.organization_id) now db2 in
        call-then (Accepts id) r _ db1 (λ e _. refused-Accepts id e db1)
          λ member e.
            call-then (Accepts id) s _ db2 (λ f _. refused-Accepts id f db2)
              λ x _.
                call-then (Accepts id) u _ db3 (λ f _. refused-Accepts id f db3)
                  λ y _ response q.
                    let (new, at, org, who, role) =
                      create_member_ok create generated joined member e in
                    let same : member ≡ response.member.0 = ground arith in
                    let (kept, kept_members) =
                      update_session_active_organization_invitations db2 session.token
                        (some i.organization_id) now in
                    (
                      i,
                      record {
                        stored = stored;
                        was_pending = was_pending;
                        live = live;
                        address = address;
                        has_address = has_address;
                        addressed = addressed;
                        new = new;
                        marked = ground (
                          arith,
                          kept,
                          eq_iff i.id id,
                          get-update_invitation_status db1 i.id id InvitationStatus.accepted,
                          create_member_invitations db create generated joined,
                        );
                        joined = ground (
                          arith,
                          at,
                          kept_members,
                          update_invitation_status_members i.id InvitationStatus.accepted db1,
                        );
                        membership = (ground arith, ground arith, ground arith);
                      },
                    )

    join_or_refuse-Accepts :
        Accepts id (join_or_refuse texts config i user session generated joined now db)
    unfolding join_or_refuse get_member
    join_or_refuse-Accepts =
        elim (Option-cases (find (is_member i.organization_id user.id) (values db.members))) [
          | inl e ↦ rw (join_or_refuse, get_member, e) join-Accepts
          | inr (m, e) ↦
              let (r, db') = update_invitation_status i.id InvitationStatus.accepted db in
              rw (join_or_refuse, get_member, e)
                (call-then (Accepts id) r _ db' (λ f _. refused-Accepts id f db')
                  (λ y _. refused-Accepts id _ db'))
        ]

  -- If invitations are stored under their ids and a call to accept one succeeds, then before the
  -- call the invitation was stored under that id, pending, not expired at the reading of the
  -- clock, and addressed to the user up to lower case, and the user was no member of the
  -- organization. After the call the invitation is marked as accepted and is otherwise the same,
  -- and the member of the answer is stored: the user in that organization, with the invitation's
  -- role.
  pub accept_invitation_core-IsAccepted :
      (id : String) (session : Session) (generated : AuthResult String) (joined now : Instant)
      (response : AcceptInvitationResponse)
      → InvitationsById db
      → (accept_invitation_core texts config id user session generated checked joined now db).0
        ≡ ok response
      → (i : Invitation) × IsAccepted id i response.member.0
          (accept_invitation_core texts config id user session generated checked joined now db).1
  unfolding accept_invitation_core list_organization_members
  accept_invitation_core-IsAccepted id session generated joined now response h =
      let (same, found) = addressed_invitation_lem db texts config id user in
      call-then (Accepts id) (addressed_invitation texts config id user db).0 _
        (addressed_invitation texts config id user db).1 (λ e _. refused-Accepts id e _)
        (λ i e.
          let (stored, (address, has_address, addressed)) = found i e in
          rw same (
            guard-then (Accepts id) (is_pending i.status) _ _ db (refused-Accepts id _ db) λ p.
              guard-then (Accepts id) (not (is_expired checked i)) _ _ db (refused-Accepts id _ db)
                λ l.
                  guard-then (Accepts id)
                    (below config.membership_limit (
                      length
                        (filter (λ m. m.organization_id == i.organization_id) (values db.members))))
                    _ _ db (refused-Accepts id _ db)
                    λ _.
                      join_or_refuse-Accepts id i (h id i stored) stored p (ground arith) address
                        has_address addressed session generated joined now))
        response
