-- ===== src/Oidc/TokenEndpoint.antt =====
-- crates/api/src/plugins/oidc_provider/handlers.rs, the token endpoint: `handle_token` and
-- `issue_tokens`, over the in-memory store.
pub mod Redeem
pub mod Exchange
pub mod Accepted
pub mod Refused
use better_auth_rs_worker.Prelude.{
  ℕ, ◌+◌, ◌/◌, String, len, concat, Bool, true, false, Option, none, some, List, [], ◌∷◌, ◌==◌,
  if◌then◌else◌, ◌||◌, ◌&&◌, not, or_else, leb, get_or,
}
use text.Mathlib.Text.{starts_with, find?}
use Prim.Native.String.{slice}
use better_auth_rs_worker.Error.{AuthError, AuthResult, ok, err, validation}
use better_auth_rs_worker.Action.{Action, pure, lift, ◌>>=◌, ◌>>◌}
use better_auth_rs_worker.HashMap.{HashMap, get, insert}
use better_auth_rs_worker.Entity.{Instant, Duration, User}
use better_auth_rs_worker.Http.{AuthRequest, AuthResponse, Body, json}
use better_auth_rs_worker.Memory.{MemoryDatabaseAdapter}
use better_auth_rs_worker.Memory.UserOps.{get_user_by_id}
use better_auth_rs_worker.Memory.OidcOps.{
  get_client, consume_authorization_code, create_access_token,
}
use better_auth_rs_worker.Oidc.Model.{ScopeSet, OAuthClient}
use better_auth_rs_worker.Oidc.OAuthError.{
  OAuthErrorCode, OAuthResult, accepted, refused, oauth_error, oauth_error_response, required,
}
use better_auth_rs_worker.Oidc.FormRequest.{
  Platform, parse_form, parse_client_id, parse_redirect_uri, client_credentials, code_verifier_of,
}
use better_auth_rs_worker.Oidc.Requests.{TokenRequest}
use better_auth_rs_worker.Oidc.Decide.{TokenGrant, authenticate_client, decide_token_grant}
use better_auth_rs_worker.Oidc.Claims.{
  IdTokenClaims, SubjectClaims, build_id_token_claims, subject_claims_from_user, no_claims,
}

-- The ports of the runtime: `sign_id_token` serialises and signs claims, and `raw_token` is the
-- token encoded from the entropy drawn for this request.
pub record Runtime : Type 0 where
  pub sign_id_token : IdTokenClaims → AuthResult String
  pub raw_token : AuthResult String

-- The part of `OidcProviderConfig` that the endpoint reads.
pub record ProviderConfig : Type 0 where
  pub issuer : String
  pub id_token_ttl : Duration
  pub access_token_ttl : Duration

-- `ScopeSet::as_space_delimited`
abbrev pub join : List String → String
join [] = ""
join (s ∷ []) = s
join (s ∷ t ∷ rest) = concat s (concat " " (join (t ∷ rest)))

-- `match result { Ok(a) => .., Err(e) => return oauth_error_response(&e) }`
abbrev pub answer :
    {S A : Type 0} → OAuthResult A → (A → Action S AuthResponse) → Action S AuthResponse
answer (accepted a) next = next a
answer (refused e) next = pure (oauth_error_response e)

-- `result.map_err(..)` to an error of the provider.
abbrev pub or_refuse : {A : Type 0} → OAuthErrorCode → String → AuthResult A → OAuthResult A
or_refuse code description (ok a) = accepted a
or_refuse code description (err _) = refused (oauth_error code description)

-- The claims of the subject that `issue_tokens` looked up.
abbrev pub claims_of : Option User → SubjectClaims
claims_of none = no_claims
claims_of (some user) = subject_claims_from_user user

-- The first test of `handle_token`.
abbrev pub check_grant_type : Option String → OAuthResult Unit
check_grant_type grant_type =
    if get_or grant_type "" == "authorization_code"
    then accepted tt
    else refused (
        oauth_error OAuthErrorCode.unsupported_grant_type
          "only the authorization_code grant is supported")

module _ (platform : Platform) (runtime : Runtime) (config : ProviderConfig) where
  -- `OidcProviderPlugin::issue_tokens`
  unfoldable pub issue_tokens : TokenGrant → Instant → Action MemoryDatabaseAdapter AuthResponse
  issue_tokens grant now = do
    user ← get_user_by_id grant.subject
    id_token ← lift (
        runtime.sign_id_token
          (build_id_token_claims config.issuer grant (claims_of user) now config.id_token_ttl))
    access_token ← lift runtime.raw_token
    _ ← create_access_token (record {
      token_hash = platform.sha256_base64url access_token;
      client_id = grant.client_id;
      subject = grant.subject;
      scope = grant.scope;
      expires_at = now + config.access_token_ttl;
      created_at = now;
    })
    pure (
        json 200 (
          Body.token_response access_token "Bearer" (config.access_token_ttl / 1000000000) id_token
            (join grant.scope.scopes)))

  -- The last steps of `handle_token`: the code is consumed, and then the grant is decided.
  unfoldable pub redeem :
      OAuthClient → TokenRequest → Instant → Action MemoryDatabaseAdapter AuthResponse
  redeem client request now = do
    consumed ← consume_authorization_code request.code now
    answer (decide_token_grant platform.sha256_base64url request client consumed now)
        (λ grant. issue_tokens grant now)

  -- `handle_token` once the client is authenticated: the parameters are read.
  unfoldable pub exchange :
      String
      → OAuthClient
      → Option String
      → HashMap String
      → Instant
      → Action MemoryDatabaseAdapter AuthResponse
  exchange client_id client client_secret form now =
      answer (required OAuthErrorCode.invalid_request "code is required" (get "code" form)) λ code.
        answer
          (required OAuthErrorCode.invalid_request "redirect_uri is required"
            (get "redirect_uri" form))
          λ redirect_raw.
            answer
              (or_refuse OAuthErrorCode.invalid_request "invalid redirect_uri"
                (parse_redirect_uri platform redirect_raw))
              λ redirect_uri.
                answer
                  (or_refuse OAuthErrorCode.invalid_grant "invalid code_verifier"
                    (code_verifier_of (get "code_verifier" form)))
                  λ code_verifier.
                    redeem client
                      (record {
                        client_id = client_id;
                        code = code;
                        redirect_uri = redirect_uri;
                        code_verifier = code_verifier;
                        client_secret = client_secret;
                      })
                      now

  -- `handle_token` once the client is named: it is looked up and authenticated, before the code is
  -- read.
  unfoldable pub as_client :
      String → Option String → HashMap String → Instant → Action MemoryDatabaseAdapter AuthResponse
  as_client client_id client_secret form now = do
    found ← get_client client_id
    answer (required OAuthErrorCode.invalid_client "unknown client" found) λ client.
        answer (authenticate_client platform.sha256_base64url client client_secret)
          λ _. exchange client_id client client_secret form now

  -- `OidcProviderPlugin::handle_token`
  unfoldable pub handle_token : AuthRequest → Instant → Action MemoryDatabaseAdapter AuthResponse
  handle_token req now =
      let form = parse_form platform req in
      answer (check_grant_type (get "grant_type" form)) λ _.
        answer (client_credentials platform req form) λ (client_id_raw, client_secret).
          answer
            (or_refuse OAuthErrorCode.invalid_client "invalid client_id"
              (parse_client_id platform client_id_raw))
            λ client_id. as_client client_id client_secret form now
