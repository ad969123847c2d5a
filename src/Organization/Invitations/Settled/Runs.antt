-- ===== src/Organization/Invitations/Settled/Runs.antt =====
-- An invitation that was accepted, rejected or canceled keeps its status: the handlers and their runs.
use better_auth_rs_worker.Prelude.{
  String, ◌≡◌, not, Option, none, some, arith, Option-cases, ◌==◌, ◌&&◌, find, length, filter,
}
use better_auth_rs_worker.Error.{AuthResult, ok}
use better_auth_rs_worker.Action.{Action}
use better_auth_rs_worker.HashMap.{get, values}
use better_auth_rs_worker.Organization.Rbac.{Resource, RbacAction}
use better_auth_rs_worker.Organization.Handlers.{below, permits, require_member}
use better_auth_rs_worker.Entity.{Instant, User, Session, Invitation, InvitationStatus}
use better_auth_rs_worker.Entity.Invitations.{is_pending}
use better_auth_rs_worker.Memory.{MemoryDatabaseAdapter}
use better_auth_rs_worker.Memory.MemberOps.{get_member, is_member, list_organization_members}
use better_auth_rs_worker.Memory.InvitationOps.{
  get_invitation_by_id, create_invitation, get_pending_invitation, list_organization_invitations,
}
use better_auth_rs_worker.Memory.UserOps.{get_user_by_email, by_index}
use better_auth_rs_worker.Organization.Members.{resolve_organization_id}
use better_auth_rs_worker.Organization.Requests.{
  TextFunctions, OrganizationConfig, InviteMemberRequest,
}
use better_auth_rs_worker.Organization.Invitations.{
  already_member, invite, reuse_or, new_invitation, is_expired, accept_invitation_core,
  reject_invitation_core, cancel_invitation_core, invite_member_core, addressed_invitation,
}
use better_auth_rs_worker.Organization.Invitations.Keeps.{
  guard-then, found_or-then, call-then, addressed_invitation_lem, resolve_organization_id_store,
}
use better_auth_rs_worker.Organization.Invitations.Settled.{
  IsSettled, settle-IsSettled, join_or_refuse-IsSettled, create_invitation-IsSettled,
}

module _ (texts : TextFunctions) (config : OrganizationConfig) (j : String) (i : Invitation) where
  abbrev Kept : MemoryDatabaseAdapter → Type 0
  Kept = IsSettled texts config j i

  abbrev KeptBy : {A : Type 0} → AuthResult A × MemoryDatabaseAdapter → Type 0
  KeptBy r = Kept r.1

  accept_invitation_core-IsSettled :
      (db : MemoryDatabaseAdapter) (id : String) (user : User) (session : Session)
      (generated : AuthResult String) (checked joined now : Instant)
      → Kept db
      → KeptBy (accept_invitation_core texts config id user session generated checked joined now db)
  unfolding accept_invitation_core list_organization_members
  accept_invitation_core-IsSettled db id user session generated checked joined now h =
      let (same, addressed) = addressed_invitation_lem db texts config id user in
      call-then KeptBy (addressed_invitation texts config id user db).0 _
        (addressed_invitation texts config id user db).1 (λ e _. rw same h)
        λ x e.
          let g : get x.id db.invitations ≡ some x =
            let (g, _) = addressed x e in ground (arith, h.by_id id x g) in
          rw same (
            guard-then KeptBy (is_pending x.status) _ _ db h λ p.
              guard-then KeptBy (not (is_expired checked x)) _ _ db h λ _.
                guard-then KeptBy
                  (below config.membership_limit (
                    length
                      (filter (λ m. m.organization_id == x.organization_id) (values db.members))))
                  _ _ db h
                  λ _.
                    join_or_refuse-IsSettled texts config j i db x user session generated joined now
                      h g p)

  reject_invitation_core-IsSettled :
      (db : MemoryDatabaseAdapter) (id : String) (user : User)
      → Kept db
      → KeptBy (reject_invitation_core texts config id user db)
  unfolding reject_invitation_core
  reject_invitation_core-IsSettled db id user h =
      let (same, addressed) = addressed_invitation_lem db texts config id user in
      call-then KeptBy (addressed_invitation texts config id user db).0 _
        (addressed_invitation texts config id user db).1 (λ e _. rw same h)
        λ x e.
          let g : get x.id db.invitations ≡ some x =
            let (g, _) = addressed x e in ground (arith, h.by_id id x g) in
          rw same (settle-IsSettled texts config j i db x InvitationStatus.rejected h g)

  cancel_invitation_core-IsSettled :
      (db : MemoryDatabaseAdapter) (id : String) (user : User)
      → Kept db
      → KeptBy (cancel_invitation_core texts config id user db)
  unfolding cancel_invitation_core get_invitation_by_id require_member get_member
  cancel_invitation_core-IsSettled db id user h =
      found_or-then KeptBy (get id db.invitations) _ _ db h λ x g.
        let g' : get x.id db.invitations ≡ some x = ground (arith, h.by_id id x g) in
        found_or-then KeptBy (find (is_member x.organization_id user.id) (values db.members)) _ _ db
          h
          λ m _.
            guard-then KeptBy (permits texts config m Resource.invitation RbacAction.cancel) _ _ db
              h λ _. settle-IsSettled texts config j i db x InvitationStatus.canceled h g'

  reuse_or-IsSettled :
      (db : MemoryDatabaseAdapter) (existing : Option Invitation)
      (create : Action MemoryDatabaseAdapter Invitation)
      → Kept db
      → KeptBy (create db)
      → KeptBy (reuse_or texts config existing create db)
  reuse_or-IsSettled db (some x) create h c = h
  reuse_or-IsSettled db none create h c = c

  abbrev get_pending_invitation_of : MemoryDatabaseAdapter → String → String → Option Invitation
  get_pending_invitation_of db org_id email =
      find
        (λ x.
          x.organization_id == org_id
          && texts.to_lowercase x.email == texts.to_lowercase email
          && is_pending x.status)
        (values db.invitations)

  already_member_store :
      (db : MemoryDatabaseAdapter) (org_id email : String)
      → (already_member texts config org_id email db).1 ≡ db
  unfolding already_member get_user_by_email get_member
  already_member_store db org_id email =
      ground (arith, Option-cases (by_index email db.email_index db.users))

  invite_member_core-IsSettled :
      (db : MemoryDatabaseAdapter) (body : InviteMemberRequest) (user : User) (session : Session)
      (generated : AuthResult String) (now created : Instant)
      → Kept db
      → ((id : String) → generated ≡ ok id → get id db.invitations ≡ none)
      → KeptBy (invite_member_core texts config body user session generated now created db)
  unfolding invite_member_core require_member get_member list_organization_members
      list_organization_invitations invite get_pending_invitation
  invite_member_core-IsSettled db body user session generated now created h fresh =
      let org : Action MemoryDatabaseAdapter String =
        resolve_organization_id body.organization_id none session in
      let same : (org db).1 ≡ db = resolve_organization_id_store db body.organization_id session in
      call-then KeptBy (org db).0 _ (org db).1 (λ e _. rw same h)
        λ org_id _. rw same (
          found_or-then KeptBy (find (is_member org_id user.id) (values db.members)) _ _ db h λ m _.
            guard-then KeptBy (permits texts config m Resource.invitation RbacAction.create) _ _ db
              h
              λ _.
                guard-then {B = Invitation} KeptBy
                  (below config.membership_limit
                    (length (filter (λ m. m.organization_id == org_id) (values db.members))))
                  _ _ db h
                  λ _.
                    guard-then {B = Invitation} KeptBy
                      (below config.invitation_limit (
                        length (
                          filter (λ x. is_pending x.status)
                            (filter (λ x. x.organization_id == org_id) (values db.invitations)))))
                      _ _ db h
                      λ _.
                        let unread : (already_member texts config org_id body.email db).1 ≡ db =
                          already_member_store db org_id body.email in
                        call-then {B = Invitation} KeptBy
                          (already_member texts config org_id body.email db).0 _
                          (already_member texts config org_id body.email db).1 (λ e _. rw unread h)
                          λ taken _. rw unread (
                            guard-then KeptBy (not taken) _ _ db h λ _.
                              reuse_or-IsSettled db (get_pending_invitation_of db org_id body.email)
                                (create_invitation
                                  (new_invitation texts config body org_id user now) generated
                                  created)
                                h
                                (create_invitation-IsSettled texts config j i db
                                  (new_invitation texts config body org_id user now) generated
                                  created h fresh)))

  -- A call of a handler; a new invitation takes an id that is not in use.
  pub data Step (db : MemoryDatabaseAdapter) : MemoryDatabaseAdapter → Type 0 where
    accepts :
        (id : String) (user : User) (session : Session) (generated : AuthResult String)
        (checked joined now : Instant)
        → Step db
            (accept_invitation_core texts config id user session generated checked joined now db).1
    rejects :
        (id : String) (user : User) → Step db (reject_invitation_core texts config id user db).1
    cancels :
        (id : String) (user : User) → Step db (cancel_invitation_core texts config id user db).1
    invites :
        (body : InviteMemberRequest) (user : User) (session : Session)
        (generated : AuthResult String) (now created : Instant)
        → ((id : String) → generated ≡ ok id → get id db.invitations ≡ none)
        → Step db (invite_member_core texts config body user session generated now created db).1

  pub data Steps (db : MemoryDatabaseAdapter) : MemoryDatabaseAdapter → Type 0 where
    start : Steps db db
    next : {db' db'' : MemoryDatabaseAdapter} → Steps db db' → Step db' db'' → Steps db db''

  Step-IsSettled : {db db' : MemoryDatabaseAdapter} → Step db db' → Kept db → Kept db'
  Step-IsSettled {db} (accepts id user session generated checked joined now) h =
      accept_invitation_core-IsSettled db id user session generated checked joined now h
  Step-IsSettled {db} (rejects id user) h = reject_invitation_core-IsSettled db id user h
  Step-IsSettled {db} (cancels id user) h = cancel_invitation_core-IsSettled db id user h
  Step-IsSettled {db} (invites body user session generated now created fresh) h =
      invite_member_core-IsSettled db body user session generated now created h fresh

  -- If invitations are stored under their ids and one is not pending, then any sequence of calls
  -- to accept, to reject, to cancel and to invite, whose new invitations take ids that are not in
  -- use, leaves it stored as it is. Calls that fail are included.
  pub Steps-IsSettled :
      {db db' : MemoryDatabaseAdapter}
      → IsSettled texts config j i db
      → Steps db db'
      → IsSettled texts config j i db'
  Steps-IsSettled h start = h
  Steps-IsSettled h (next steps step) = Step-IsSettled step (Steps-IsSettled h steps)
