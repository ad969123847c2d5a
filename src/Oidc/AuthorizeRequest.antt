-- ===== src/Oidc/AuthorizeRequest.antt =====
-- crates/api/src/plugins/oidc_provider/handlers.rs, the parameters of the authorization endpoint, with
-- the parsers of crates/core/src/oidc/model.rs that it calls. `str::split_whitespace` is a parameter.
pub mod Parsed
use better_auth_rs_worker.Prelude.{
  String, Bool, false, not, Option, none, some, List, [], ◌∷◌, ◌==◌, if◌then◌else◌, get_or, any,
  all, leb_text, sort_by,
}
use better_auth_rs_worker.Error.{AuthResult, ok, err, validation}
use better_auth_rs_worker.HashMap.{get}
use better_auth_rs_worker.Http.{AuthRequest}
use better_auth_rs_worker.Oidc.Model.{ScopeSet, OAuthClient, CodeChallengeMethod, s256}
use better_auth_rs_worker.Oidc.OAuthError.{
  OAuthErrorCode, OAuthResult, accepted, refused, oauth_error, required, ◌>>=◌,
}
use better_auth_rs_worker.Oidc.Requests.{PromptMode, parse_prompt}
use better_auth_rs_worker.Oidc.Rules.{validate_allowed_scopes, require_pkce_at_authorize}

-- `query`
abbrev pub query : AuthRequest → String → Option String
query req key = get key req.query

-- `rules::parse_response_type` with `ResponseType::parse`: there is one response type.
unfoldable pub parse_response_type : String → OAuthResult Unit
parse_response_type raw =
    if raw == "code"
    then accepted tt
    else refused (
        oauth_error OAuthErrorCode.unsupported_response_type "only response_type=code is supported")

-- The loop of `Vec::dedup`: a scope that equals the one kept before it is dropped.
abbrev dedup_after : String → List String → List String
dedup_after last [] = []
dedup_after last (s ∷ rest) =
    let kept = dedup_after s rest in if last == s then dedup_after last rest else s ∷ kept

abbrev pub dedup : List String → List String
dedup [] = []
dedup (s ∷ rest) = s ∷ dedup_after s rest

-- `ScopeSet::from_scopes`
unfoldable pub from_scopes : List String → AuthResult ScopeSet
from_scopes scopes =
    let kept = dedup (sort_by leb_text scopes) in
    if any (λ s. s == "openid") kept
    then ok (record { scopes = kept })
    else err (validation "scope must include openid")

-- `CodeChallenge::parse`
abbrev pub parse_code_challenge : String → AuthResult String
parse_code_challenge raw =
    if raw == "" then err (validation "code_challenge must not be empty") else ok raw

-- `query.map(CodeChallenge::parse).transpose().map_err(..)`
abbrev pub code_challenge_of : Option String → OAuthResult (Option String)
code_challenge_of none = accepted none
code_challenge_of (some raw) = elim (parse_code_challenge raw) [
  | ok c ↦ accepted (some c)
  | err _ ↦ refused (oauth_error OAuthErrorCode.invalid_request "invalid code_challenge")
]

-- `CodeChallengeMethod::parse` with its `map_err`
abbrev pub parse_code_challenge_method : String → OAuthResult CodeChallengeMethod
parse_code_challenge_method raw =
    if raw == "S256"
    then accepted s256
    else refused (
        oauth_error OAuthErrorCode.invalid_request
          "only the S256 code_challenge_method is supported")

pub record AuthorizeParams : Type 0 where
  pub scope : ScopeSet
  pub code_challenge : String
  pub code_challenge_method : CodeChallengeMethod
  pub nonce : Option String
  pub prompt : PromptMode

module _ (split_whitespace : String → List String) where
  -- `Scope::parse(raw).is_ok()`
  abbrev is_scope : String → Bool
  is_scope raw = elim (split_whitespace raw) [
    | [] ↦ false
    | _ ∷ [] ↦ not (raw == "")
    | _ ∷ _ ∷ _ ↦ false
  ]

  -- `ScopeSet::parse`
  unfoldable pub parse_scopes : String → AuthResult ScopeSet
  parse_scopes raw =
      let scopes = split_whitespace raw in
      if all is_scope scopes
      then from_scopes (dedup (sort_by leb_text scopes))
      else err (validation "scope token must be a single word")

  -- `rules::parse_requested_scopes`
  abbrev pub parse_requested_scopes : String → OAuthResult ScopeSet
  parse_requested_scopes raw = elim (parse_scopes raw) [
    | ok scope ↦ accepted scope
    | err _ ↦ refused (oauth_error OAuthErrorCode.invalid_scope "the openid scope is required")
  ]

  unfoldable pub parse_authorize_params : AuthRequest → OAuthClient → OAuthResult AuthorizeParams
  parse_authorize_params req client = do
    _ ← parse_response_type (get_or (query req "response_type") "")
    scope ← parse_requested_scopes (get_or (query req "scope") "")
    _ ← validate_allowed_scopes client scope
    code_challenge ← code_challenge_of (query req "code_challenge")
    _ ← require_pkce_at_authorize client code_challenge
    code_challenge ←
        required OAuthErrorCode.invalid_request "code_challenge is required" code_challenge
    code_challenge_method ←
        parse_code_challenge_method (get_or (query req "code_challenge_method") "S256")
    prompt ← parse_prompt (query req "prompt")
    accepted (record {
      scope = scope;
      code_challenge = code_challenge;
      code_challenge_method = code_challenge_method;
      nonce = query req "nonce";
      prompt = prompt;
    })
