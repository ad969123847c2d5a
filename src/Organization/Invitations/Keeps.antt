-- ===== src/Organization/Invitations/Keeps.antt =====
-- Predicates of the store that the guards and the calls of the handlers keep.
use better_auth_rs_worker.Prelude.{
  String, ◌≡◌, refl, Bool, true, false, Option, none, some, arith, inl, inr, Option-cases,
  Bool-cases, ◌==◌, eq_iff, any, and_then_some, if◌then◌else◌,
}
use better_auth_rs_worker.Error.{AuthError, AuthResult, ok, err, AuthResult-cases}
use better_auth_rs_worker.Action.{Action, and_then}
use better_auth_rs_worker.HashMap.{get, values}
use better_auth_rs_worker.HashMap.Laws.{get-modify}
use better_auth_rs_worker.Entity.{
  Instant, User, Session, Invitation, InvitationStatus, CreateMember,
}
use better_auth_rs_worker.Memory.{MemoryDatabaseAdapter}
use better_auth_rs_worker.Memory.SessionOps.{update_session_active_organization}
use better_auth_rs_worker.Memory.MemberOps.{create_member, is_member}
use better_auth_rs_worker.Memory.InvitationOps.{get_invitation_by_id, update_invitation_status}
use better_auth_rs_worker.Organization.Members.{found_or, guard, resolve_organization_id}
use better_auth_rs_worker.Organization.Requests.{TextFunctions, OrganizationConfig}
use better_auth_rs_worker.Organization.Invitations.{addressed_invitation}

module _ {B : Type 0} (P : AuthResult B × MemoryDatabaseAdapter → Type 0) where
  -- What holds of the answer after a guard, if it holds of the refusal and of what follows.
  pub guard-then :
      (b : Bool) (e : AuthError) (f : Unit → Action MemoryDatabaseAdapter B)
      (s : MemoryDatabaseAdapter)
      → P (err e, s)
      → (b ≡ true → P (f tt s))
      → P (and_then (guard b e s).0 f (guard b e s).1)
  guard-then true e f s p h = h refl
  guard-then false e f s p h = p

  pub found_or-then :
      {A : Type 0} (o : Option A) (e : AuthError) (f : A → Action MemoryDatabaseAdapter B)
      (s : MemoryDatabaseAdapter)
      → P (err e, s)
      → ((a : A) → o ≡ some a → P (f a s))
      → P (and_then (found_or e o s).0 f (found_or e o s).1)
  found_or-then none e f s p h = p
  found_or-then (some a) e f s p h = h a refl

  -- The same for any call.
  pub call-then :
      {A : Type 0} (r : AuthResult A) (f : A → Action MemoryDatabaseAdapter B)
      (s : MemoryDatabaseAdapter)
      → ((e : AuthError) → r ≡ err e → P (err e, s))
      → ((a : A) → r ≡ ok a → P (f a s))
      → P (and_then r f s)
  call-then (ok a) f s p h = h a refl
  call-then (err e) f s p h = p e refl

module _ (db : MemoryDatabaseAdapter) where
  pub create_member_invitations :
      (create : CreateMember) (generated : AuthResult String) (now : Instant)
      → (create_member create generated now db).1.invitations ≡ db.invitations
  unfolding create_member
  create_member_invitations create generated now =
      elim (Bool-cases
        (any (is_member create.organization_id create.user_id) (values db.members))) [
          | inl q ↦ ground arith
          | inr q ↦ elim (AuthResult-cases generated) [
            | inl (i, e) ↦ ground arith
            | inr (f, e) ↦ ground arith
          ]
        ]

  pub update_session_active_organization_invitations :
      (token : String) (organization_id : Option String) (now : Instant)
      → ((update_session_active_organization token organization_id now db).1.invitations
          ≡ db.invitations)
        × ((update_session_active_organization token organization_id now db).1.members ≡ db.members)
  unfolding update_session_active_organization
  update_session_active_organization_invitations token organization_id now =
      elim (Option-cases (get token db.sessions)) [
        | inl e ↦ (ground arith, ground arith)
        | inr (s, e) ↦ (ground arith, ground arith)
      ]

  -- The invitations after a change of status.
  pub get-update_invitation_status :
      (id j : String) (status : InvitationStatus)
      → get j (update_invitation_status id status db).1.invitations ≡ (
          if id == j
          then and_then_some (get j db.invitations) (λ i. some (record i { status = status }))
          else get j db.invitations)
  unfolding update_invitation_status
  get-update_invitation_status id j status = elim (Option-cases (get id db.invitations)) [
    | inl e ↦ ground (arith, eq_iff id j)
    | inr (i, e) ↦ ground (
      arith,
      get-modify id j (λ (i : Invitation). record i { status = status }) db.invitations,
      eq_iff id j,
    )
  ]

  -- An invitation that is addressed to the user is stored, and the store is not changed.
  pub addressed_invitation_lem :
      (texts : TextFunctions) (config : OrganizationConfig) (id : String) (user : User)
      → ((addressed_invitation texts config id user db).1 ≡ db)
        × ((i : Invitation)
            → (addressed_invitation texts config id user db).0 ≡ ok i
            → (get id db.invitations ≡ some i)
              × ((email : String) × (user.email ≡ some email)
                  × (texts.to_lowercase i.email ≡ texts.to_lowercase email)))
  unfolding addressed_invitation get_invitation_by_id
  addressed_invitation_lem texts config id user = elim (Option-cases (get id db.invitations)) [
    | inl e ↦ (ground arith, λ i p. absurd (ground arith))
    | inr (x, e) ↦ elim (Option-cases user.email) [
      | inl f ↦ (ground arith, λ i p. absurd (ground arith))
      | inr (email, f) ↦
          let same : Bool = texts.to_lowercase x.email == texts.to_lowercase email in
          elim (Bool-cases same) [
            | inr q ↦ (ground arith, λ i p. absurd (ground arith))
            | inl q ↦ (
              ground arith,
              λ i p. (
                ground arith,
                (
                  email,
                  f,
                  ground (arith, eq_iff (texts.to_lowercase x.email) (texts.to_lowercase email)),
                ),
              ),
            )
          ]
    ]
  ]

  pub resolve_organization_id_store :
      (id : Option String) (session : Session) → (resolve_organization_id id none session db).1 ≡ db
  unfolding resolve_organization_id
  resolve_organization_id_store (some id) session = refl
  resolve_organization_id_store none session =
      ground (arith, Option-cases session.active_organization_id)
