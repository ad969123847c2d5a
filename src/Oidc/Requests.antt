-- ===== src/Oidc/Requests.antt =====
-- crates/api/src/plugins/oidc_provider/requests.rs: the validated requests.
use better_auth_rs_worker.Prelude.{String, Option, none, some, ◌==◌, if◌then◌else◌, concat}
use better_auth_rs_worker.Entity.{Instant}
use better_auth_rs_worker.Oidc.Model.{ScopeSet, CodeChallengeMethod}
use better_auth_rs_worker.Oidc.OAuthError.{
  OAuthErrorCode, OAuthResult, accepted, refused, oauth_error,
}

-- `PromptMode`: `default_mode` for an absent parameter.
pub data PromptMode : Type 0 where
  default_mode none_mode login_mode : PromptMode

unfoldable pub parse_prompt : Option String → OAuthResult PromptMode
parse_prompt none = accepted default_mode
parse_prompt (some raw) =
    if raw == "none"
    then accepted none_mode
    else if raw == "login"
    then accepted login_mode
    else refused
        (oauth_error OAuthErrorCode.invalid_request (concat "unsupported prompt value: " raw))

pub record AuthenticatedSubject : Type 0 where
  pub subject : String
  pub auth_time : Instant

pub record AuthorizationRequest : Type 0 where
  pub client_id : String
  pub redirect_uri : String
  pub scope : ScopeSet
  pub code_challenge : String
  pub code_challenge_method : CodeChallengeMethod
  pub nonce : Option String
  pub state : Option String
  pub prompt : PromptMode

pub record TokenRequest : Type 0 where
  pub client_id : String
  pub code : String
  pub redirect_uri : String
  pub code_verifier : Option String
  pub client_secret : Option String
