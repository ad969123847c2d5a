-- ===== src/Memory/InvitationOps.antt =====
-- crates/core/src/adapters/memory.rs, `impl InvitationOps`. Rust's Unicode `to_lowercase` is a
-- parameter.
use better_auth_rs_worker.Prelude.{String, ◌&&◌, Option, none, some, List, ◌==◌, filter, find, ltb}
use better_auth_rs_worker.Error.{AuthResult, ok, err, not_found}
use better_auth_rs_worker.Action.{Action}
use better_auth_rs_worker.HashMap.{get, insert, modify, values}
use better_auth_rs_worker.Entity.{Instant, Invitation, InvitationStatus, CreateInvitation}
use better_auth_rs_worker.Entity.Invitations.{from_create, is_pending}
use better_auth_rs_worker.Memory.{MemoryDatabaseAdapter}

unfoldable pub create_invitation :
    CreateInvitation → AuthResult String → Instant → Action MemoryDatabaseAdapter Invitation
create_invitation create generated now db = elim generated [
  | err e ↦ (err e, db)
  | ok id ↦
      let invitation = from_create id create now in
      (ok invitation, record db { invitations = insert id invitation db.invitations })
]

unfoldable pub get_invitation_by_id : String → Action MemoryDatabaseAdapter (Option Invitation)
get_invitation_by_id id db = (ok (get id db.invitations), db)

unfoldable pub update_invitation_status :
    String → InvitationStatus → Action MemoryDatabaseAdapter Invitation
update_invitation_status id status db = elim (get id db.invitations) [
  | none ↦ (err (not_found "Invitation not found"), db)
  | some i ↦
      let changed = λ (i : Invitation). record i { status = status } in
      (ok (changed i), record db { invitations = modify id changed db.invitations })
]

unfoldable pub list_organization_invitations :
    String → Action MemoryDatabaseAdapter (List Invitation)
list_organization_invitations organization_id db =
    (ok (filter (λ i. i.organization_id == organization_id) (values db.invitations)), db)

module _ (to_lowercase : String → String) where
  unfoldable pub get_pending_invitation :
      String → String → Action MemoryDatabaseAdapter (Option Invitation)
  get_pending_invitation organization_id email db = (
    ok (
        find
          (λ i.
            i.organization_id == organization_id
            && to_lowercase i.email == to_lowercase email
            && is_pending i.status)
          (values db.invitations)),
    db,
  )

  unfoldable pub list_user_invitations :
      String → Instant → Action MemoryDatabaseAdapter (List Invitation)
  list_user_invitations email now db = (
    ok (
        filter
          (λ i.
            to_lowercase i.email == to_lowercase email
            && is_pending i.status
            && ltb now i.expires_at)
          (values db.invitations)),
    db,
  )
