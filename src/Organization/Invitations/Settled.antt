-- ===== src/Organization/Invitations/Settled.antt =====
-- An invitation that was accepted, rejected or canceled keeps its status: the steps of the handlers.
pub mod Runs
use better_auth_rs_worker.Prelude.{
  String, ◌≡◌, true, false, not, Option, none, some, arith, inl, inr, Option-cases, ◌==◌, ◌&&◌,
  eq_iff, find, length, filter,
}
use better_auth_rs_worker.Error.{AuthResult, ok, AuthResult-cases}
use better_auth_rs_worker.Action.{Action}
use better_auth_rs_worker.HashMap.{get, values}
use better_auth_rs_worker.HashMap.Laws.{get-insert}
use better_auth_rs_worker.Organization.Rbac.{Resource, RbacAction}
use better_auth_rs_worker.Organization.Handlers.{below, permits, require_member}
use better_auth_rs_worker.Memory.SessionOps.{update_session_active_organization}
use better_auth_rs_worker.Entity.{
  Instant, User, Session, CreateMember, Invitation, CreateInvitation, InvitationStatus,
}
use better_auth_rs_worker.Entity.Invitations.{is_pending}
use better_auth_rs_worker.Memory.{MemoryDatabaseAdapter}
use better_auth_rs_worker.Memory.MemberOps.{
  create_member, get_member, is_member, list_organization_members,
}
use better_auth_rs_worker.Memory.InvitationOps.{
  get_invitation_by_id, create_invitation, update_invitation_status, get_pending_invitation,
  list_organization_invitations,
}
use better_auth_rs_worker.Memory.UserOps.{get_user_by_email, by_index}
use better_auth_rs_worker.Organization.Members.{resolve_organization_id}
use better_auth_rs_worker.Entity.Invitations.{from_create}
use better_auth_rs_worker.Organization.Requests.{
  TextFunctions, OrganizationConfig, InviteMemberRequest,
}
use better_auth_rs_worker.Organization.Invitations.{
  settle, already_member, invite, reuse_or, new_invitation, is_expired, join, join_or_refuse,
  accept_invitation_core, reject_invitation_core, cancel_invitation_core, invite_member_core,
  addressed_invitation,
}
use better_auth_rs_worker.Organization.Invitations.Keeps.{
  guard-then, found_or-then, call-then, create_member_invitations,
  update_session_active_organization_invitations, get-update_invitation_status,
  addressed_invitation_lem, resolve_organization_id_store,
}

-- Each invitation is stored under its id.
abbrev pub InvitationsById : MemoryDatabaseAdapter → Type 0
InvitationsById db = (k : String) (i : Invitation) → get k db.invitations ≡ some i → i.id ≡ k

module _ (texts : TextFunctions) (config : OrganizationConfig) (j : String) (i : Invitation) where
  -- The invitation is stored, and it is not pending.
  pub record IsSettled (db : MemoryDatabaseAdapter) : Type 0 where
    pub by_id : InvitationsById db
    pub stored : get j db.invitations ≡ some i
    pub settled : is_pending i.status ≡ false

  abbrev pub Settles : {A : Type 0} → AuthResult A × MemoryDatabaseAdapter → Type 0
  Settles r = IsSettled r.1

  pub same_invitations :
      (db db' : MemoryDatabaseAdapter)
      → db'.invitations ≡ db.invitations
      → IsSettled db
      → IsSettled db'
  same_invitations db db' e h = record {
    by_id = λ k x p. h.by_id k x (rw (← e) p);
    stored = rw e h.stored;
    settled = h.settled;
  }

  pub update_invitation_status-IsSettled :
      (db : MemoryDatabaseAdapter) (x : Invitation) (status : InvitationStatus)
      → IsSettled db
      → get x.id db.invitations ≡ some x
      → is_pending x.status ≡ true
      → IsSettled (update_invitation_status x.id status db).1
  update_invitation_status-IsSettled db x status h g p = record {
    by_id = λ k y q. elim (Option-cases (get k db.invitations)) [
      | inl e ↦ absurd (ground (arith, get-update_invitation_status db x.id k status))
      | inr (z, e) ↦ ground (arith, h.by_id k z, get-update_invitation_status db x.id k status)
    ];
    stored =
        ground (
          arith,
          h.stored,
          h.settled,
          eq_iff x.id j,
          get-update_invitation_status db x.id j status,
        );
    settled = h.settled;
  }

  pub settle-IsSettled :
      (db : MemoryDatabaseAdapter) (x : Invitation) (status : InvitationStatus)
      → IsSettled db
      → get x.id db.invitations ≡ some x
      → Settles (settle texts config x status db)
  unfolding settle
  settle-IsSettled db x status h g = guard-then Settles (is_pending x.status) _ _ db h λ p.
      let (r, db') = update_invitation_status x.id status db in
      let h' : IsSettled db' = update_invitation_status-IsSettled db x status h g p in
      call-then Settles r _ db' (λ e _. h') (λ y _. h')

  pub join-IsSettled :
      (db : MemoryDatabaseAdapter) (x : Invitation) (user : User) (session : Session)
      (generated : AuthResult String) (joined now : Instant)
      → IsSettled db
      → get x.id db.invitations ≡ some x
      → is_pending x.status ≡ true
      → Settles (join texts config x user session generated joined now db)
  unfolding join
  join-IsSettled db x user session generated joined now h g p =
      let create : CreateMember = record {
        organization_id = x.organization_id;
        user_id = user.id;
        role = x.role;
      } in
      let (r, db') = create_member create generated joined db in
      let same : db'.invitations ≡ db.invitations =
        create_member_invitations db create generated joined in
      let h' : IsSettled db' = same_invitations db db' same h in
      let h'' : IsSettled (update_invitation_status x.id InvitationStatus.accepted db').1 =
        update_invitation_status-IsSettled db' x InvitationStatus.accepted h' (rw same g) p in
      call-then Settles r _ db' (λ e _. h')
        λ member _.
          call-then Settles (update_invitation_status x.id InvitationStatus.accepted db').0 _
            (update_invitation_status x.id InvitationStatus.accepted db').1 (λ e _. h'')
            λ y _.
              let (u, db3) =
                update_session_active_organization session.token (some x.organization_id) now
                  (update_invitation_status x.id InvitationStatus.accepted db').1 in
              let h3 : IsSettled db3 =
                same_invitations (update_invitation_status x.id InvitationStatus.accepted db').1 db3
                  (update_session_active_organization_invitations
                    (update_invitation_status x.id InvitationStatus.accepted db').1 session.token
                    (some x.organization_id) now).0
                  h'' in
              call-then Settles u _ db3 (λ e _. h3) (λ z _. h3)

  pub join_or_refuse-IsSettled :
      (db : MemoryDatabaseAdapter) (x : Invitation) (user : User) (session : Session)
      (generated : AuthResult String) (joined now : Instant)
      → IsSettled db
      → get x.id db.invitations ≡ some x
      → is_pending x.status ≡ true
      → Settles (join_or_refuse texts config x user session generated joined now db)
  unfolding join_or_refuse get_member
  join_or_refuse-IsSettled db x user session generated joined now h g p =
      elim (Option-cases (find (is_member x.organization_id user.id) (values db.members))) [
        | inl e ↦
            rw (join_or_refuse, get_member, e)
              (join-IsSettled db x user session generated joined now h g p)
        | inr (m, e) ↦
            let (r, db') = update_invitation_status x.id InvitationStatus.accepted db in
            let h' : IsSettled db' =
              update_invitation_status-IsSettled db x InvitationStatus.accepted h g p in
            rw (join_or_refuse, get_member, e) (call-then Settles r _ db' (λ f _. h') (λ y _. h'))
      ]

  pub create_invitation-IsSettled :
      (db : MemoryDatabaseAdapter) (create : CreateInvitation) (generated : AuthResult String)
      (now : Instant)
      → IsSettled db
      → ((id : String) → generated ≡ ok id → get id db.invitations ≡ none)
      → Settles (create_invitation create generated now db)
  unfolding create_invitation from_create
  create_invitation-IsSettled db create generated now h fresh = elim (AuthResult-cases generated) [
    | inr (e, q) ↦ rw (create_invitation, q) h
    | inl (id, q) ↦
        let absent : get id db.invitations ≡ none = fresh id q in
        rw (create_invitation, q)
          (record {
            by_id = λ k x p. ground (
              arith,
              h.by_id k x,
              eq_iff id k,
              get-insert id k (from_create id create now) db.invitations,
            );
            stored = ground (
              arith,
              h.stored,
              eq_iff id j,
              get-insert id j (from_create id create now) db.invitations,
            );
            settled = h.settled;
          })
  ]
