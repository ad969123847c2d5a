-- ===== src/Examples/CodeFlow.antt =====
-- A run of the authorization-code flow: a signed-in user authorizes an app, which redeems the code.
use better_auth_rs_worker.Prelude.{
  ◌≡◌, refl, String, true, false, none, some, [], ◌∷◌, arith, ◌==◌, if◌then◌else◌, concat, List,
}
use better_auth_rs_worker.Error.{ok}
use better_auth_rs_worker.HashMap.{get, insert}
use better_auth_rs_worker.Http.{AuthRequest, HttpMethod, Body, json}
use better_auth_rs_worker.Entity.{User, Session}
use better_auth_rs_worker.Entity.Users
use better_auth_rs_worker.Entity.Sessions
use better_auth_rs_worker.Session.{get_session}
use better_auth_rs_worker.Session.Request.{extract_session_token, require_session}
use better_auth_rs_worker.Memory.SessionOps
use better_auth_rs_worker.Memory.UserOps.{get_user_by_id}
use better_auth_rs_worker.Memory.{MemoryDatabaseAdapter, new}
use better_auth_rs_worker.Oidc.Model.{
  OAuthClient, ClientType, CodeChallengeMethod, GrantType, TokenEndpointAuthMethod,
  AuthorizationCodeRecord,
}
use better_auth_rs_worker.Oidc.Requests.{default_mode, parse_prompt}
use better_auth_rs_worker.Oidc.OAuthError.{accepted}
use better_auth_rs_worker.Oidc.Rules.{
  validate_redirect_uri, validate_allowed_scopes, each_allowed, require_pkce_at_authorize,
}
use better_auth_rs_worker.Oidc.Decide.{authenticate_client}
use better_auth_rs_worker.Oidc.FormRequest.{Platform, parsed, client_credentials}
use better_auth_rs_worker.Oidc.TokenEndpoint.{Runtime, ProviderConfig, handle_token}
use better_auth_rs_worker.Oidc.AuthorizeRequest.{
  AuthorizeParams, parse_authorize_params, parse_response_type, parse_scopes, from_scopes,
}
use better_auth_rs_worker.Oidc.Authorize.{
  AuthorizeConfig, AuthorizeReadings, handle_authorize, redirect_code_response,
}
use better_auth_rs_worker.Oidc.Authorize.Outcome.{Outcome, handle_authorize-Outcome}
use better_auth_rs_worker.Oidc.TokenEndpoint.Accepted.{IsPresented}
use better_auth_rs_worker.Oidc.CodeFlow.{authorize-token}

abbrev platform : Platform
platform = record {
  sha256_base64url = λ s. concat "h:" s;
  form_urlencoded = λ _.
      ("grant_type", "authorization_code")
      ∷ ("client_id", "app")
      ∷ ("code", "c1")
      ∷ ("redirect_uri", "https://app.example/cb")
      ∷ ("code_verifier", "verifier-verifier-verifier-verifier-verifier")
      ∷ [];
  decode_basic = λ _. none;
  parse_url = λ _. parsed false false;
  trim = λ s. s;
}

abbrev words : String → List String
words s = if s == "openid" then "openid" ∷ [] else []

abbrev config : AuthorizeConfig
config = record {
  platform = platform;
  split_whitespace = words;
  serialize = λ _. "pairs";
  login_hook = none;
  code_ttl = 60;
  cookies = record { cookie_name = "sid"; split_parse = λ _. ("sid", "t1") ∷ [] };
  session = record {
    expires_in = 1000;
    update_age = none;
    disable_session_refresh = true;
    fresh_age = none;
  };
}

abbrev runtime : Runtime
runtime = record { sign_id_token = λ _. ok "id-token"; raw_token = ok "raw" }

abbrev provider : ProviderConfig
provider = record {
  issuer = "https://id.example";
  id_token_ttl = 600;
  access_token_ttl = 600000000000;
}

abbrev app : OAuthClient
app = record {
  client_id = "app";
  client_type = ClientType.public;
  redirect_uris = "https://app.example/cb" ∷ [];
  allowed_scopes = record { scopes = "openid" ∷ [] };
  allowed_grant_types = GrantType.authorization_code ∷ [];
  secret_hash = none;
  token_endpoint_auth_method = TokenEndpointAuthMethod.none_method;
}

abbrev alice : User
alice =
    Users.from_create "u1"
      (record {
        id = none;
        email = some "alice@example.com";
        name = none;
        image = none;
        email_verified = none;
        password = none;
        username = none;
        display_username = none;
        role = none;
        metadata = none;
      })
      1

abbrev open_session : Session
open_session =
    Sessions.from_create "s1" "t1"
      (record {
        id = some "s1";
        token = some "t1";
        user_id = "u1";
        created_at = some 1;
        expires_at = 1000;
        ip_address = none;
        user_agent = none;
        impersonated_by = none;
        active_organization_id = none;
      })
      1

abbrev store : MemoryDatabaseAdapter
store = record new {
  users = ("u1", alice) ∷ [];
  sessions = ("t1", open_session) ∷ [];
  oidc_clients = ("app", app) ∷ [];
}

abbrev authorize_request : AuthRequest
authorize_request = record {
  method = HttpMethod.get_method;
  path = "/oauth2/authorize";
  headers = ("cookie", "sid=t1") ∷ [];
  body = none;
  query =
      ("client_id", "app")
      ∷ ("redirect_uri", "https://app.example/cb")
      ∷ ("response_type", "code")
      ∷ ("scope", "openid")
      ∷ ("code_challenge", "h:verifier-verifier-verifier-verifier-verifier")
      ∷ [];
  virtual_user_id = none;
}

abbrev token_request : AuthRequest
token_request = record {
  method = HttpMethod.post;
  path = "/oauth2/token";
  headers = [];
  body = some [];
  query = [];
  virtual_user_id = none;
}

abbrev readings : AuthorizeReadings
readings = record {
  access = record { now = 10; later = 10; written = 10 };
  decided = 10;
  raw_code = ok "c1";
}

abbrev params : AuthorizeParams
params = record {
  scope = record { scopes = "openid" ∷ [] };
  code_challenge = "h:verifier-verifier-verifier-verifier-verifier";
  code_challenge_method = CodeChallengeMethod.s256;
  nonce = none;
  prompt = default_mode;
}

registered : validate_redirect_uri app "https://app.example/cb" ≡ accepted "https://app.example/cb"
unfolding validate_redirect_uri
registered = refl

accepted_params : parse_authorize_params words authorize_request app ≡ accepted params
unfolding get parse_authorize_params parse_response_type parse_scopes from_scopes
    validate_allowed_scopes each_allowed require_pkce_at_authorize parse_prompt
accepted_params = refl

signed_in :
    (require_session config.cookies config.session authorize_request readings.access store).0
    ≡ ok (alice, open_session)
unfolding get require_session extract_session_token get_session SessionOps.get_session
    Sessions.from_create get_user_by_id Users.from_create
signed_in = refl

-- The code of the run.
abbrev issued : AuthorizationCodeRecord
issued = record {
  code = "c1";
  client_id = "app";
  subject = "u1";
  redirect_uri = "https://app.example/cb";
  scope = record { scopes = "openid" ∷ [] };
  code_challenge = "h:verifier-verifier-verifier-verifier-verifier";
  code_challenge_method = CodeChallengeMethod.s256;
  nonce = none;
  auth_time = 1;
  expires_at = 70;
}

presented : IsPresented platform runtime provider token_request app issued
unfolding get insert client_credentials authenticate_client
presented = record {
  secret = none;
  verifier = "verifier-verifier-verifier-verifier-verifier";
  granted = refl;
  credentials = refl;
  named = refl;
  authenticated = refl;
  coded = refl;
  back = refl;
  absolute = refl;
  verified = refl;
  challenged = refl;
}

handle_authorize-Outcome_example :
    Outcome config authorize_request readings store
      (handle_authorize config authorize_request readings store)
handle_authorize-Outcome_example = handle_authorize-Outcome config authorize_request readings store

authorize-token_example :
    let (answer, db') = handle_authorize config authorize_request readings store in
    let (answer', db'') = handle_token platform runtime provider token_request 50 db' in
    (answer ≡ ok (redirect_code_response config "https://app.example/cb" "c1" none))
    × ((id_token : String) × (answer'
          ≡ ok (json 200 (Body.token_response "raw" "Bearer" 600 id_token "openid"))))
    × (get "h:raw" db''.oidc_access_tokens
        ≡ some (record {
          token_hash = "h:raw";
          client_id = "app";
          subject = "u1";
          scope = record { scopes = "openid" ∷ [] };
          expires_at = 600000000050;
          created_at = 50;
        }))
    × (get "c1" db''.oidc_codes ≡ none)
unfolding get Users.from_create Sessions.from_create
authorize-token_example =
    authorize-token config authorize_request readings store "app" "https://app.example/cb" "c1" app
      params alice open_session refl refl refl refl registered accepted_params signed_in refl
      (λ e. absurd (ground arith)) refl platform runtime provider token_request 50 "raw" presented
      refl (omega arith) refl (λ c. ("id-token", refl))
