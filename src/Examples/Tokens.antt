-- ===== src/Examples/Tokens.antt =====
-- Runs of the OpenID Connect provider with a stand-in for the hash.
use better_auth_rs_worker.Prelude.{
  String, ℕ, ◌<◌, ◌≡◌, refl, true, false, Option, none, some, [], ◌∷◌, ◌↔◌, ◌⊎◌, inl, inr, ap, sym,
  ◌∙◌, arith, ◌==◌, if◌then◌else◌, concat,
}
use better_auth_rs_worker.Error.{ok}
use better_auth_rs_worker.HashMap.{get, insert}
use better_auth_rs_worker.Http.{AuthRequest, HttpMethod, Body, json}
use better_auth_rs_worker.Memory.{MemoryDatabaseAdapter, new}
use better_auth_rs_worker.Memory.OidcOps.{
  code_record, create_authorization_code, consume_authorization_code,
  delete_expired_authorization_codes,
}
use better_auth_rs_worker.Memory.OidcOps.Codes.{
  consume_once, consume-create, consume-sweep, OtherSteps, start, next, issues, redeems, sweeps,
}
use better_auth_rs_worker.Oidc.Model.{
  OAuthClient, ClientType, CodeChallengeMethod, GrantType, TokenEndpointAuthMethod,
  NewAuthorizationCode, contains,
}
use better_auth_rs_worker.Oidc.OAuthError.{accepted}
use better_auth_rs_worker.Oidc.Decide.{authenticate_client}
use better_auth_rs_worker.Oidc.Decide.Grants.{authenticate_client_iff, grant_of}
use better_auth_rs_worker.Oidc.Claims.{SubjectClaims, build_id_token_claims}
use better_auth_rs_worker.Oidc.Claims.Projection.{build_id_token_claims_granted}
use better_auth_rs_worker.Oidc.FormRequest.{Platform, parsed, parse_form, client_credentials}
use better_auth_rs_worker.Oidc.TokenEndpoint.{Runtime, ProviderConfig, handle_token}
use better_auth_rs_worker.Oidc.TokenEndpoint.Redeem.{IsSound}
use better_auth_rs_worker.Oidc.TokenEndpoint.Exchange.{handle_token_lem}
use better_auth_rs_worker.Oidc.TokenEndpoint.Refused.{IsAuthenticated, handle_token_refused}

abbrev platform : Platform
platform = record {
  sha256_base64url = λ s. concat "h:" s;
  form_urlencoded = λ _.
      ("grant_type", "authorization_code")
      ∷ ("client_id", "app")
      ∷ ("code", "c1")
      ∷ ("redirect_uri", "https://app.example/cb")
      ∷ ("code_verifier", "verifier")
      ∷ [];
  decode_basic = λ _. none;
  parse_url = λ _. parsed false false;
  trim = λ s. s;
}

abbrev runtime : Runtime
runtime = record { sign_id_token = λ _. ok "id-token"; raw_token = ok "raw" }

abbrev provider : ProviderConfig
provider = record { issuer = "https://id.example"; id_token_ttl = 600; access_token_ttl = 600 }

abbrev app : OAuthClient
app = record {
  client_id = "app";
  client_type = ClientType.public;
  redirect_uris = "https://app.example/cb" ∷ [];
  allowed_scopes = record { scopes = "openid" ∷ [] };
  allowed_grant_types = GrantType.authorization_code ∷ [];
  secret_hash = none;
  token_endpoint_auth_method = TokenEndpointAuthMethod.none_method;
}

abbrev issued_code : NewAuthorizationCode
issued_code = record {
  code = "c1";
  client_id = "app";
  subject = "u1";
  redirect_uri = "https://app.example/cb";
  scope = record { scopes = "openid" ∷ [] };
  code_challenge = "h:verifier";
  code_challenge_method = CodeChallengeMethod.s256;
  nonce = some "n1";
  auth_time = 1;
  expires_at = 60;
}

abbrev with_code : MemoryDatabaseAdapter
with_code = record new {
  oidc_clients = ("app", app) ∷ [];
  oidc_codes = ("c1", code_record issued_code) ∷ [];
}

abbrev token_request : AuthRequest
token_request = record {
  method = HttpMethod.post;
  path = "/oauth2/token";
  headers = [];
  body = some [];
  query = [];
  virtual_user_id = none;
}

handle_token_lem_example :
    IsSound platform runtime provider
      (parse_form platform token_request)
      50
      with_code
      (handle_token platform runtime provider token_request 50 with_code).1
handle_token_lem_example = handle_token_lem platform runtime provider token_request 50 with_code

-- The form also carries a secret, which a public client has none of.
abbrev guessing : Platform
guessing = record platform {
  form_urlencoded = λ body. ("client_secret", "guess") ∷ platform.form_urlencoded body;
}

guess_is_foreign : ¬ IsAuthenticated guessing token_request with_code
unfolding get insert client_credentials
guess_is_foreign (id, secret, client, c, n, which) =
    let named : id ≡ "app" = ground arith in
    let given : secret ≡ some "guess" = ground arith in
    let found : get "app" with_code.oidc_clients ≡ some client =
      ap (λ i. get i with_code.oidc_clients) (sym named) ∙ n in
    elim which [ inl (_, absent) ↦ ground arith | inr (hidden, _) ↦ ground arith ]

handle_token_refused_example :
    ((description : String) × ((handle_token guessing runtime provider token_request 50 with_code).0
        ≡ ok (json 401 (Body.oauth_error_body "invalid_client" description))))
    × ((handle_token guessing runtime provider token_request 50 with_code).1 ≡ with_code)
unfolding get insert
handle_token_refused_example =
    handle_token_refused guessing runtime provider token_request 50 with_code refl guess_is_foreign

consume_once_example :
    let db' = (consume_authorization_code "c1" 50 with_code).1 in
    (get "c1" with_code.oidc_codes ≡ some (code_record issued_code))
    × (50 < 60)
    × ((later : ℕ) → consume_authorization_code "c1" later db' ≡ (ok none, db'))
    × ((other : String)
        → get other db'.oidc_codes
          ≡ (if "c1" == other then none else get other with_code.oidc_codes))
unfolding get consume_authorization_code
consume_once_example = consume_once "c1" 50 with_code (code_record issued_code) refl

abbrev second_code : NewAuthorizationCode
second_code = record issued_code { code = "c2"; nonce = none; subject = "u2"; expires_at = 90 }

-- A first code is issued, a second one is issued and redeemed, and a sweep runs.
abbrev after_others : MemoryDatabaseAdapter
after_others =
    (delete_expired_authorization_codes 40
      (consume_authorization_code "c2" 30
        (create_authorization_code second_code
          (create_authorization_code issued_code new).1).1).1).1

others_run : OtherSteps "c1" 60 (create_authorization_code issued_code new).1 after_others
others_run =
    next (next (next start (issues second_code refl)) (redeems "c2" 30 refl))
      (sweeps 40 (omega arith))

consume-create_example :
    (consume_authorization_code "c1" 50 after_others).0
    ≡ ok (
        some (record {
          code = "c1";
          client_id = "app";
          subject = "u1";
          redirect_uri = "https://app.example/cb";
          scope = record { scopes = "openid" ∷ [] };
          code_challenge = "h:verifier";
          code_challenge_method = CodeChallengeMethod.s256;
          nonce = some "n1";
          auth_time = 1;
          expires_at = 60;
        }))
consume-create_example = consume-create issued_code 50 new after_others tt others_run

consume-sweep_example :
    (consume_authorization_code "c1" 50 (delete_expired_authorization_codes 40 with_code).1).0
    ≡ (consume_authorization_code "c1" 50 with_code).0
unfolding get
consume-sweep_example = consume-sweep "c1" 40 50 with_code (refl, tt) (omega arith)

abbrev no_secret : Option String
no_secret = none

authenticate_client_iff_example :
    (authenticate_client platform.sha256_base64url app no_secret ≡ accepted tt) ↔ (
      ((app.client_type ≡ ClientType.public) × (no_secret ≡ none))
      ⊎ ((app.client_type ≡ ClientType.confidential)
          × ((s : String) × (no_secret ≡ some s)
              × (app.secret_hash ≡ some (platform.sha256_base64url s)))))
authenticate_client_iff_example = authenticate_client_iff platform.sha256_base64url app no_secret

abbrev known : SubjectClaims
known = record { name = some "Alice"; email = some "alice@example.com"; email_verified = some true }

build_id_token_claims_granted_example :
    let grant = grant_of (code_record issued_code) in
    let claims = build_id_token_claims "https://id.example" grant known 50 600 in
    (claims.name ≡ (if contains "profile" grant.scope then known.name else none))
    × (claims.email ≡ (if contains "email" grant.scope then known.email else none))
    × (claims.email_verified
        ≡ (if contains "email" grant.scope then known.email_verified else none))
build_id_token_claims_granted_example =
    build_id_token_claims_granted "https://id.example" (grant_of (code_record issued_code)) known 50
      600
