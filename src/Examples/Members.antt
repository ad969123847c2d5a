-- ===== src/Examples/Members.antt =====
-- Runs of the member handlers: the only owner stays one.
use better_auth_rs_worker.Prelude.{
  String, ◌≤◌, refl, true, none, some, List, [], ◌∷◌, arith, eq_iff,
}
use better_auth_rs_worker.HashMap.{HashMap, get}
use better_auth_rs_worker.Entity.{Member, User, Session}
use better_auth_rs_worker.Entity.Users.{from_create}
use better_auth_rs_worker.Memory.{MemoryDatabaseAdapter, new}
use better_auth_rs_worker.Organization.Rbac.{RolePermissions}
use better_auth_rs_worker.Organization.Members.{remove_member_core, update_member_role_core}
use better_auth_rs_worker.Organization.Members.Owners.{MembersById, owners}
use better_auth_rs_worker.Organization.Members.LastOwner.{
  remove_member_core-owners, update_member_role_core-owners,
}

abbrev member_of : String → String → String → Member
member_of id user_id role = record {
  id = id;
  organization_id = "o1";
  user_id = user_id;
  role = role;
  created_at = 1;
}

abbrev staffed : MemoryDatabaseAdapter
staffed = record new {
  members = ("m1", member_of "m1" "u1" "owner") ∷ ("m2", member_of "m2" "u2" "member") ∷ [];
}

abbrev founder : User
founder =
    from_create "u1"
      (record {
        id = none;
        email = some "alice@example.com";
        name = none;
        image = none;
        email_verified = none;
        password = none;
        username = none;
        display_username = none;
        role = none;
        metadata = none;
      })
      1

abbrev signed_in : Session
signed_in = record {
  id = "s1";
  expires_at = 100;
  token = "t1";
  created_at = 1;
  updated_at = 1;
  ip_address = none;
  user_agent = none;
  user_id = "u1";
  impersonated_by = none;
  active_organization_id = some "o1";
  active = true;
}

-- A role list with one part.
abbrev alone : String → List String
alone role = role ∷ []

abbrev no_roles : HashMap RolePermissions
no_roles = []

staffed-MembersById : MembersById staffed
unfolding get
staffed-MembersById = record {
  unique = (refl, (refl, tt));
  by_id = λ k m e. ground (arith, eq_iff "m1" k, eq_iff "m2" k);
}

remove_member_core-owners_example :
    1
    ≤ owners "o1"
        (remove_member_core alone no_roles
          (record { organization_id = none; member_id = some "m1"; email = none })
          founder
          signed_in
          staffed).1
remove_member_core-owners_example =
    remove_member_core-owners alone no_roles staffed staffed-MembersById "o1"
      (record { organization_id = none; member_id = some "m1"; email = none }) founder signed_in
      (omega arith)

update_member_role_core-owners_example :
    1
    ≤ owners "o1"
        (update_member_role_core alone no_roles
          (record { organization_id = none; member_id = "m1"; role = "member" })
          founder
          signed_in
          staffed).1
update_member_role_core-owners_example =
    update_member_role_core-owners alone no_roles staffed staffed-MembersById "o1"
      (record { organization_id = none; member_id = "m1"; role = "member" }) founder signed_in
      (omega arith)
