-- ===== src/Organization/Handlers/Leave.antt =====
-- A member that leaves: an organization that has an owner keeps one.
use better_auth_rs_worker.Prelude.{
  ◌≤◌, String, ◌≡◌, refl, Bool, true, false, eq_iff, none, arith, find,
}
use mathlib.Core.Path.{subst}
use better_auth_rs_worker.Error.{AuthResult}
use better_auth_rs_worker.HashMap.{values}
use better_auth_rs_worker.HashMap.Distinct.{find-some}
use better_auth_rs_worker.Entity.{Instant, User, Session}
use better_auth_rs_worker.Memory.{MemoryDatabaseAdapter}
use better_auth_rs_worker.Memory.MemberOps.{get_member, is_member, delete_member}
use better_auth_rs_worker.Memory.SessionOps.{update_session_active_organization}
use better_auth_rs_worker.Organization.Members.{is_owner_role, not_last_owner}
use better_auth_rs_worker.Organization.Members.Owners.{
  MembersById, delete-owners, find_by_id, owners, not_last_owner_store, not_last_owner_ok,
}
use better_auth_rs_worker.Organization.Handlers.{
  require_member, clear_active, is_active, leave_organization_core,
}
use better_auth_rs_worker.Organization.Invitations.Keeps.{
  found_or-then, call-then, update_session_active_organization_invitations,
}

clear_active_members :
    (applies : Bool) (session : Session) (now : Instant) (db : MemoryDatabaseAdapter)
    → (clear_active applies session now db).1.members ≡ db.members
unfolding clear_active
clear_active_members false session now db = refl
clear_active_members true session now db =
    let (r, db') = update_session_active_organization session.token none now db in
    let (_, kept) = update_session_active_organization_invitations db session.token none now in
    call-then (λ r. r.1.members ≡ db.members) r _ db' (λ e _. kept) (λ s _. kept)

module _ (db : MemoryDatabaseAdapter) (h : MembersById db) (org : String) where
  abbrev HasOwner : AuthResult (Unit {0}) × MemoryDatabaseAdapter → Type 0
  HasOwner r = 1 ≤ owners org r.1

  -- If members are stored once, under their ids, and an organization has a member whose role
  -- contains `owner`, it has one after a call of the handler for leaving, whatever the
  -- organization left, the user and the session, and whether the call succeeds or fails.
  pub leave_organization_core-owners :
      (organization_id : String) (user : User) (session : Session) (now : Instant)
      → 1 ≤ owners org db
      → 1 ≤ owners org (leave_organization_core organization_id user session now db).1
  unfolding leave_organization_core require_member get_member delete_member
  leave_organization_core-owners organization_id user session now one =
      let of_user = is_member organization_id user.id in
      found_or-then HasOwner (find of_user (values db.members)) _ _ db one λ member e.
        let applies : Bool = is_owner_role member.role in
        let message : String =
          "Cannot leave organization as the last owner. Delete the organization or transfer ownership first." in
        let last : AuthResult (Unit {0}) × MemoryDatabaseAdapter =
          not_last_owner applies organization_id message db in
        let same : last.1 ≡ db = not_last_owner_store applies organization_id message db in
        call-then HasOwner last.0 _ last.1 (λ f _. rw same one)
          λ _ y.
            let deleted : MemoryDatabaseAdapter = (delete_member member.id db).1 in
            let (r, db') = clear_active (is_active session organization_id) session now deleted in
            let kept : db'.members ≡ deleted.members =
              clear_active_members (is_active session organization_id) session now deleted in
            let passed : is_member organization_id user.id member ≡ true =
              find-some of_user (values db.members) member e in
            rw same (
              rw kept (
                delete-owners db h org member (find_by_id db h org of_user member e)
                  (λ o.
                    let same_org : organization_id ≡ org = ground (
                      arith,
                      eq_iff member.organization_id organization_id,
                      eq_iff member.organization_id org,
                    ) in
                    subst (λ x. 2 ≤ owners x db) same_org
                      (not_last_owner_ok applies organization_id message db y (ground arith)))
                  one))
