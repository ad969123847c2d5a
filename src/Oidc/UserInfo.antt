-- ===== src/Oidc/UserInfo.antt =====
-- crates/api/src/plugins/oidc_provider/handlers.rs, the userinfo endpoint, over the in-memory store.
pub mod Access
use better_auth_rs_worker.Prelude.{
  String, Bool, true, false, Option, none, some, or_else, if◌then◌else◌,
}
use better_auth_rs_worker.Action.{Action, pure, ◌>>=◌}
use better_auth_rs_worker.HashMap.{get, insert}
use better_auth_rs_worker.Entity.{Instant, User}
use better_auth_rs_worker.Http.{AuthRequest, AuthResponse, Body, json, string_value}
use better_auth_rs_worker.Memory.{MemoryDatabaseAdapter}
use better_auth_rs_worker.Memory.UserOps.{get_user_by_id}
use better_auth_rs_worker.Memory.OidcOps.{get_access_token_by_hash}
use better_auth_rs_worker.Oidc.Model.{AccessTokenRecord}
use better_auth_rs_worker.Oidc.OAuthError.{
  OAuthErrorCode, refused, oauth_error, oauth_error_response, required,
}
use better_auth_rs_worker.Oidc.Rules.{is_expired}
use better_auth_rs_worker.Oidc.Claims.{project_claims, subject_claims_from_user}
use better_auth_rs_worker.Oidc.FormRequest.{Platform, strip_prefix}
use better_auth_rs_worker.Oidc.TokenEndpoint.{answer}

-- The claims of the answer: those of the granted scopes, and the subject.
abbrev pub userinfo_body : AccessTokenRecord → User → Body
userinfo_body r user =
    Body.object (
      insert "sub" (string_value r.subject)
        (project_claims r.scope (subject_claims_from_user user)))

abbrev trimmed : (String → String) → Option String → Option String
trimmed trim none = none
trimmed trim (some s) = some (trim s)

module _ (platform : Platform) where
  -- `bearer_token`
  unfoldable pub bearer_token : AuthRequest → Option String
  bearer_token req = elim (get "authorization" req.headers) [
    | none ↦ none
    | some header ↦
        trimmed platform.trim
          (or_else (strip_prefix "Bearer " header) (strip_prefix "bearer " header))
  ]

  -- `handle_userinfo` once the token is known.
  unfoldable pub token_userinfo : String → Instant → Action MemoryDatabaseAdapter AuthResponse
  token_userinfo token now = do
    found ← get_access_token_by_hash (platform.sha256_base64url token)
    answer (required OAuthErrorCode.invalid_token "the access token is invalid" found) λ r.
        if is_expired now r.expires_at
        then pure (
            oauth_error_response
              (oauth_error OAuthErrorCode.invalid_token "the access token has expired"))
        else (do
          user ← get_user_by_id r.subject
          answer
              (required OAuthErrorCode.invalid_token "the access token subject no longer exists"
                user)
              λ u. pure (json 200 (userinfo_body r u)))

  -- `OidcProviderPlugin::handle_userinfo`
  unfoldable pub handle_userinfo : AuthRequest → Instant → Action MemoryDatabaseAdapter AuthResponse
  handle_userinfo req now = elim (bearer_token req) [
    | none ↦ pure (
        oauth_error_response
          (oauth_error OAuthErrorCode.invalid_token "a bearer access token is required"))
    | some token ↦ token_userinfo token now
  ]
