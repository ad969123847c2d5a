-- ===== src/Oidc/Decide.antt =====
-- crates/api/src/plugins/oidc_provider/decide.rs: the decisions of the authorization and the token
-- endpoints.
pub mod Grants
use better_auth_rs_worker.Prelude.{
  ◌+◌, String, Bool, true, false, Option, none, some, ◌==◌, if◌then◌else◌, not, is_some,
}
use better_auth_rs_worker.Entity.{Instant, Duration}
use better_auth_rs_worker.Oidc.Model.{
  ScopeSet, OAuthClient, CodeChallengeMethod, ClientType, public, confidential,
  AuthorizationCodeRecord,
}
use better_auth_rs_worker.Oidc.OAuthError.{
  OAuthErrorCode, OAuthError, OAuthResult, accepted, refused, oauth_error, required, ◌>>=◌,
}
use better_auth_rs_worker.Oidc.Requests.{
  PromptMode, default_mode, none_mode, login_mode, AuthenticatedSubject, AuthorizationRequest,
  TokenRequest,
}
use better_auth_rs_worker.Oidc.Rules.{verify_pkce, is_expired}

pub record AuthorizationGrant : Type 0 where
  pub client_id : String
  pub subject : String
  pub redirect_uri : String
  pub scope : ScopeSet
  pub code_challenge : String
  pub code_challenge_method : CodeChallengeMethod
  pub nonce : Option String
  pub state : Option String
  pub auth_time : Instant
  pub expires_at : Instant

pub data AuthorizeDecision : Type 0 where
  issue_code : AuthorizationGrant → AuthorizeDecision
  require_login : AuthorizeDecision
  deny : OAuthError → String → Option String → AuthorizeDecision

abbrev deny_login_required : AuthorizationRequest → AuthorizeDecision
deny_login_required request =
    deny (oauth_error OAuthErrorCode.login_required "authentication is required")
      request.redirect_uri request.state

-- The grant of the first branch of `decide_authorization`.
abbrev pub authorization_grant :
    AuthorizationRequest → AuthenticatedSubject → Instant → Duration → AuthorizationGrant
authorization_grant request sub now code_ttl = record {
  client_id = request.client_id;
  subject = sub.subject;
  redirect_uri = request.redirect_uri;
  scope = request.scope;
  code_challenge = request.code_challenge;
  code_challenge_method = request.code_challenge_method;
  nonce = request.nonce;
  state = request.state;
  auth_time = sub.auth_time;
  expires_at = now + code_ttl;
}

abbrev login_or_deny : AuthorizationRequest → Bool → AuthorizeDecision
login_or_deny request has_login_hook =
    if has_login_hook then require_login else deny_login_required request

unfoldable pub decide_authorization :
    AuthorizationRequest
    → Option AuthenticatedSubject
    → Bool
    → Instant
    → Duration
    → AuthorizeDecision
decide_authorization request subject has_login_hook now code_ttl = elim subject [
  | some sub ↦ elim request.prompt [
    | default_mode ↦ issue_code (authorization_grant request sub now code_ttl)
    | none_mode ↦ issue_code (authorization_grant request sub now code_ttl)
    | login_mode ↦ login_or_deny request has_login_hook
  ]
  | none ↦ elim request.prompt [
    | default_mode ↦ login_or_deny request has_login_hook
    | login_mode ↦ login_or_deny request has_login_hook
    | none_mode ↦ deny_login_required request
  ]
]

pub record TokenGrant : Type 0 where
  pub client_id : String
  pub subject : String
  pub scope : ScopeSet
  pub nonce : Option String
  pub auth_time : Instant

-- `check(condition)?`: an error unless the condition holds.
abbrev ensure : Bool → OAuthErrorCode → String → OAuthResult Unit
ensure true _ _ = accepted tt
ensure false code description = refused (oauth_error code description)

module _ (sha256_base64url : String → String) where
  unfoldable pub authenticate_client : OAuthClient → Option String → OAuthResult Unit
  authenticate_client client provided_secret = elim client.client_type [
    | confidential ↦ (do
      secret ← required OAuthErrorCode.invalid_client "client secret is required" provided_secret
      stored ←
          required OAuthErrorCode.invalid_client "confidential client has no registered secret"
            client.secret_hash
      ensure (sha256_base64url secret == stored) OAuthErrorCode.invalid_client
          "invalid client secret")
    | public ↦
        ensure (not (is_some provided_secret)) OAuthErrorCode.invalid_client
          "public client must not present a client secret"
  ]

  unfoldable pub decide_token_grant :
      TokenRequest → OAuthClient → Option AuthorizationCodeRecord → Instant → OAuthResult TokenGrant
  decide_token_grant request client consumed now = do
    r ← required OAuthErrorCode.invalid_grant "authorization code is invalid or used" consumed
    _ ←
        ensure (not (is_expired now r.expires_at)) OAuthErrorCode.invalid_grant
          "authorization code has expired"
    _ ←
        ensure (r.client_id == client.client_id) OAuthErrorCode.invalid_grant
          "authorization code was issued to a different client"
    _ ←
        ensure (r.redirect_uri == request.redirect_uri) OAuthErrorCode.invalid_grant
          "redirect_uri does not match the authorization request"
    verifier ←
        required OAuthErrorCode.invalid_grant "code_verifier is required" request.code_verifier
    _ ← verify_pkce sha256_base64url r.code_challenge r.code_challenge_method verifier
    accepted (record {
      client_id = r.client_id;
      subject = r.subject;
      scope = r.scope;
      nonce = r.nonce;
      auth_time = r.auth_time;
    })
