-- ===== src/Examples/UserInfo.antt =====
-- A run of the userinfo endpoint.
use better_auth_rs_worker.Prelude.{
  String, ◌≡◌, ◌↔◌, true, false, Bool-cases, arith, Option, none, some, [], ◌∷◌, concat, ◌==◌,
  if◌then◌else◌,
}
use better_auth_rs_worker.Error.{ok}
use better_auth_rs_worker.Entity.{User}
use better_auth_rs_worker.Http.{AuthRequest, HttpMethod, Body, ClaimValue, string_value, json}
use better_auth_rs_worker.Memory.{MemoryDatabaseAdapter, new}
use better_auth_rs_worker.Oidc.Model.{AccessTokenRecord}
use better_auth_rs_worker.Oidc.FormRequest.{Platform, parsed}
use better_auth_rs_worker.Oidc.UserInfo.{handle_userinfo, bearer_token}
use better_auth_rs_worker.Oidc.UserInfo.Access.{Entitled, claim_in, told, handle_userinfo_iff}

abbrev platform : Platform
platform = record {
  sha256_base64url = λ s. concat "h:" s;
  form_urlencoded = λ _. [];
  decode_basic = λ _. none;
  parse_url = λ _. parsed false false;
  trim = λ s. s;
}

abbrev token_row : AccessTokenRecord
token_row = record {
  token_hash = "h:raw";
  client_id = "app";
  subject = "u1";
  scope = record { scopes = "openid" ∷ "profile" ∷ [] };
  expires_at = 600;
  created_at = 50;
}

abbrev alice : User
alice = record {
  id = "u1";
  name = some "Alice";
  email = some "alice@example.com";
  email_verified = true;
  image = none;
  created_at = 1;
  updated_at = 1;
  username = none;
  display_username = none;
  two_factor_enabled = false;
  role = none;
  banned = false;
  ban_reason = none;
  ban_expires = none;
  metadata = "{}";
}

abbrev with_token : MemoryDatabaseAdapter
with_token = record new {
  users = ("u1", alice) ∷ [];
  oidc_access_tokens = ("h:raw", token_row) ∷ [];
}

abbrev request : AuthRequest
request = record {
  method = HttpMethod.get_method;
  path = "/oauth2/userinfo";
  headers = ("authorization", "Bearer raw") ∷ [];
  body = none;
  query = [];
  virtual_user_id = none;
}

-- The claims that the profile scope gives.
abbrev alice_claims : String → Option ClaimValue
alice_claims key =
    if key == "sub"
    then some (string_value "u1")
    else if key == "name"
    then some (string_value "Alice")
    else none

handle_userinfo_iff_example :
    ((body : Body) × ((handle_userinfo platform request 60 with_token).0 ≡ ok (json 200 body))
      × ((key : String) → claim_in body key ≡ alice_claims key))
    ↔ ((token : String) × (bearer_token platform request ≡ some token)
        × ((r : AccessTokenRecord) × (u : User) × Entitled platform 60 with_token token r u
            × ((key : String) → alice_claims key ≡ told r u key)))
handle_userinfo_iff_example = handle_userinfo_iff platform 60 with_token request alice_claims

alice_claims-told : (key : String) → alice_claims key ≡ told token_row alice key
alice_claims-told key =
    ground (arith, Bool-cases (key == "name"), Bool-cases (key == "email_verified"))
