-- ===== src/Oidc/OAuthError.antt =====
-- crates/api/src/plugins/oidc_provider/error.rs: the typed errors of the provider and their direct
-- response.
use better_auth_rs_worker.Prelude.{ℕ, String, Option, none, some}
use better_auth_rs_worker.Http.{AuthResponse, Body, json, with_header}
use better_auth_rs_worker.Prelude.{concat}

pub data OAuthErrorCode : Type 0 where
  invalid_request invalid_client invalid_grant unauthorized_client : OAuthErrorCode
  unsupported_grant_type unsupported_response_type invalid_scope access_denied : OAuthErrorCode
  login_required invalid_token server_error : OAuthErrorCode

-- `OAuthErrorCode::as_str`
unfoldable pub as_str : OAuthErrorCode → String
as_str invalid_request = "invalid_request"
as_str invalid_client = "invalid_client"
as_str invalid_grant = "invalid_grant"
as_str unauthorized_client = "unauthorized_client"
as_str unsupported_grant_type = "unsupported_grant_type"
as_str unsupported_response_type = "unsupported_response_type"
as_str invalid_scope = "invalid_scope"
as_str access_denied = "access_denied"
as_str login_required = "login_required"
as_str invalid_token = "invalid_token"
as_str server_error = "server_error"

-- `OAuthErrorCode::http_status`
unfoldable pub http_status : OAuthErrorCode → ℕ
http_status invalid_request = 400
http_status invalid_grant = 400
http_status unauthorized_client = 400
http_status unsupported_grant_type = 400
http_status unsupported_response_type = 400
http_status invalid_scope = 400
http_status invalid_client = 401
http_status login_required = 401
http_status invalid_token = 401
http_status access_denied = 403
http_status server_error = 500

pub record OAuthError : Type 0 where
  pub code : OAuthErrorCode
  pub description : String

-- `OAuthError::new`
abbrev pub oauth_error : OAuthErrorCode → String → OAuthError
oauth_error code description = record { code = code; description = description }

-- `Result<A, OAuthError>`
pub data OAuthResult (A : Type 0) : Type 0 where
  accepted : A → OAuthResult A
  refused : OAuthError → OAuthResult A

module _ {A B : Type 0} where
  -- The `?` operator.
  infixl 5 ◌>>=◌
  abbrev pub ◌>>=◌ : OAuthResult A → (A → OAuthResult B) → OAuthResult B
  accepted a >>= f = f a
  refused e >>= f = refused e

-- `Option::ok_or_else`
abbrev pub required : {A : Type 0} → OAuthErrorCode → String → Option A → OAuthResult A
required code description none = refused (oauth_error code description)
required _ _ (some a) = accepted a

-- `OAuthError::www_authenticate`
abbrev www_authenticate : OAuthError → Option String
www_authenticate e = elim e.code [
  | invalid_token ↦
      some
        (concat "Bearer error=\"invalid_token\", error_description=\"" (concat e.description "\""))
  | _ ↦ none
]

-- `oauth_error_response`, with `to_body`
unfoldable pub oauth_error_response : OAuthError → AuthResponse
oauth_error_response e =
    let response =
      json (http_status e.code) (Body.oauth_error_body (as_str e.code) e.description) in
    elim (www_authenticate e) [
      | none ↦ response
      | some challenge ↦ with_header "WWW-Authenticate" challenge response
    ]
