-- ===== src/Examples/Tables.antt =====
-- Runs of the organization, member, passkey, verification and session tables.
use better_auth_rs_worker.Prelude.{
  String, ℕ, ◌≤◌, ◌+◌, ◌≡◌, refl, true, false, none, some, [], ◌∷◌, ◌↔◌, arith, if◌then◌else◌, ◌==◌,
  All, filter, length,
}
use better_auth_rs_worker.Error.{ok}
use better_auth_rs_worker.HashMap.{get, values}
use better_auth_rs_worker.Entity.{
  CreateOrganization, CreateMember, Passkey, CreatePasskey, Verification, CreateSession,
}
use better_auth_rs_worker.Entity.Passkeys.{from_create}
use better_auth_rs_worker.Memory.{MemoryDatabaseAdapter, new}
use better_auth_rs_worker.Memory.OrganizationOps.{
  create_organization, delete_organization, get_organization_by_id,
}
use better_auth_rs_worker.Memory.OrganizationOps.Slugs
use better_auth_rs_worker.Memory.OrganizationOps.Cascade.{delete_organization_cascade}
use better_auth_rs_worker.Memory.MemberOps.{create_member, list_organization_members}
use better_auth_rs_worker.Memory.MemberOps.Unique.{MembersDistinct, create_member-MembersDistinct}
use better_auth_rs_worker.Memory.InvitationOps.{list_organization_invitations}
use better_auth_rs_worker.Memory.PasskeyOps.{create_passkey, get_passkey_by_credential_id}
use better_auth_rs_worker.Memory.PasskeyOps.Credentials
use better_auth_rs_worker.Memory.VerificationOps.{consume_verification, matches, newest}
use better_auth_rs_worker.Memory.VerificationOps.Consume.{
  consume_verification_newest, consume_verification_once,
}
use better_auth_rs_worker.Memory.SessionOps.{create_session, delete_session}
use better_auth_rs_worker.Memory.SessionOps.ByToken

abbrev acme : CreateOrganization
acme = record { id = none; name = "Acme"; slug = "acme"; logo = none; metadata = none }

abbrev with_acme : MemoryDatabaseAdapter
with_acme = (create_organization acme (ok "o1") 1 new).1

acme_reached : Slugs.Reach with_acme
unfolding get
acme_reached = Slugs.next Slugs.start (Slugs.creates acme (ok "o1") 1 (λ id e. refl))

Reach-SlugsIndexed_example : Slugs.SlugsIndexed (delete_organization "o1" with_acme).1
Reach-SlugsIndexed_example = Slugs.Reach-SlugsIndexed (Slugs.next acme_reached (Slugs.deletes "o1"))

abbrev owner_of : String → CreateMember
owner_of organization_id = record {
  organization_id = organization_id;
  user_id = "u1";
  role = "owner";
}

abbrev with_owner : MemoryDatabaseAdapter
with_owner = (create_member (owner_of "o1") (ok "m1") 2 with_acme).1

delete_organization_cascade_example :
    let db' = (delete_organization "o1" with_owner).1 in
    ((get_organization_by_id "o1" db').0 ≡ ok none)
    × ((j : String)
        → ((list_organization_members j db').0
            ≡ (if j == "o1" then ok [] else (list_organization_members j with_owner).0))
          × ((list_organization_invitations j db').0
              ≡ (if j == "o1" then ok [] else (list_organization_invitations j with_owner).0)))
delete_organization_cascade_example = delete_organization_cascade "o1" with_owner

create_member-MembersDistinct_example :
    MembersDistinct (create_member (owner_of "o2") (ok "m1") 2 new).1
unfolding get
create_member-MembersDistinct_example =
    create_member-MembersDistinct new (record { at = λ i j v w p q e. absurd (ground arith) })
      (owner_of "o2") (ok "m1") 2

abbrev key_input : CreatePasskey
key_input = record {
  user_id = "u1";
  name = "laptop";
  credential_id = "cred";
  public_key = "pk";
  counter = 0;
  device_type = "singleDevice";
  backed_up = false;
  transports = none;
}

abbrev with_passkey : MemoryDatabaseAdapter
with_passkey = (create_passkey key_input (ok "p1") 3 new).1

abbrev laptop : Passkey
laptop = from_create "p1" key_input 3

passkey_reached : Credentials.Reach with_passkey
unfolding get
passkey_reached =
    Credentials.next Credentials.start (Credentials.creates key_input (ok "p1") 3 (λ id e. refl))

get_passkey_by_credential_id_iff_example :
    ((get_passkey_by_credential_id "cred" with_passkey).0 ≡ ok (some laptop)) ↔ (
      (id : String) × (get id with_passkey.passkeys ≡ some laptop)
      × (laptop.credential_id ≡ "cred"))
get_passkey_by_credential_id_iff_example =
    Credentials.get_passkey_by_credential_id_iff "cred" laptop passkey_reached

abbrev code_of : String → ℕ → Verification
code_of id created_at = record {
  id = id;
  identifier = "alice@example.com";
  value = "123456";
  expires_at = 100;
  created_at = created_at;
  updated_at = created_at;
}

abbrev two_codes : MemoryDatabaseAdapter
two_codes = record new { verifications = ("v1", code_of "v1" 10) ∷ ("v2", code_of "v2" 20) ∷ [] }

abbrev one_code : MemoryDatabaseAdapter
one_code = record new { verifications = ("v2", code_of "v2" 20) ∷ [] }

consume_verification_newest_example :
    let p = matches "alice@example.com" "123456" 50 in
    let db' = (consume_verification "alice@example.com" "123456" 50 two_codes).1 in
    (p (code_of "v2" 20) ≡ true)
    × All
        (λ w. w.created_at ≤ (code_of "v2" 20).created_at)
        (filter p (values two_codes.verifications))
    × (length (filter p (values db'.verifications)) + 1
        ≡ length (filter p (values two_codes.verifications)))
    × ((id : String) × (get id two_codes.verifications ≡ some (code_of "v2" 20))
        × ((k : String)
            → get k db'.verifications ≡ (if id == k then none else get k two_codes.verifications)))
unfolding consume_verification newest get
consume_verification_newest_example =
    consume_verification_newest "alice@example.com" "123456" 50 two_codes (code_of "v2" 20)
      (refl, (refl, tt)) refl

consume_verification_once_example :
    let db' = (consume_verification "alice@example.com" "123456" 50 one_code).1 in
    consume_verification "alice@example.com" "123456" 60 db' ≡ (ok none, db')
unfolding consume_verification newest get
consume_verification_once_example =
    consume_verification_once "alice@example.com" "123456" 50 60 one_code (code_of "v2" 20)
      (refl, tt) (omega arith) (omega arith) refl

abbrev login : CreateSession
login = record {
  id = none;
  token = none;
  user_id = "u1";
  created_at = none;
  expires_at = 100;
  ip_address = none;
  user_agent = none;
  impersonated_by = none;
  active_organization_id = none;
}

Reach-SessionsByToken_example :
    ByToken.SessionsByToken
      (delete_session "t1" (create_session login (ok "s1") (ok "t1") 5 new).1).1
Reach-SessionsByToken_example = ByToken.Reach-SessionsByToken (
    ByToken.next (ByToken.next ByToken.start (ByToken.creates login (ok "s1") (ok "t1") 5))
      (ByToken.deletes "t1"))
