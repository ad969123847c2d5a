-- ===== src/Oidc/Authorize.antt =====
-- crates/api/src/plugins/oidc_provider/handlers.rs, the authorization endpoint, over the in-memory
-- store. The URL encoding of the parameters and the host's login hook are parameters.
pub mod Steps
pub mod Outcome
use better_auth_rs_worker.Prelude.{
  String, concat, Bool, Option, none, some, List, [], ◌∷◌, ◌++◌, ◌==◌, if◌then◌else◌, is_some,
}
use text.Mathlib.Text.{find?}
use better_auth_rs_worker.Error.{
  AuthError, AuthResult, ok, err, bad_request, internal, unauthenticated,
}
use better_auth_rs_worker.Action.{Action, pure, raise, lift, ◌>>=◌}
use better_auth_rs_worker.Entity.{Instant, Duration, User, Session}
use better_auth_rs_worker.Http.{AuthRequest, AuthResponse, new, with_header}
use better_auth_rs_worker.Memory.{MemoryDatabaseAdapter}
use better_auth_rs_worker.Memory.OidcOps.{get_client, create_authorization_code}
use better_auth_rs_worker.Oidc.Model.{NewAuthorizationCode, OAuthClient}
use better_auth_rs_worker.Oidc.OAuthError.{OAuthError, OAuthResult, accepted, refused, as_str}
use better_auth_rs_worker.Oidc.Requests.{AuthenticatedSubject, AuthorizationRequest}
use better_auth_rs_worker.Oidc.Rules.{validate_redirect_uri}
use better_auth_rs_worker.Oidc.Decide.{
  AuthorizationGrant, AuthorizeDecision, issue_code, require_login, deny, decide_authorization,
}
use better_auth_rs_worker.Oidc.FormRequest.{Platform, parse_client_id}
use better_auth_rs_worker.Oidc.AuthorizeRequest.{query, AuthorizeParams, parse_authorize_params}
use better_auth_rs_worker.Session.{SessionConfig}
use better_auth_rs_worker.Session.Request.{Cookies, AccessTimes, require_session}
use better_auth_rs_worker.Organization.Members.{found_or}

-- The third-party code and the host's hook that the endpoint calls, and the lifetime of a code.
-- `serialize` is `form_urlencoded::Serializer` on pairs.
pub record AuthorizeConfig : Type 0 where
  pub platform : Platform
  pub split_whitespace : String → List String
  pub serialize : List (String × String) → String
  pub login_hook : Option (String → String)
  pub code_ttl : Duration
  pub cookies : Cookies
  pub session : SessionConfig

-- What a request reads: the clock in the session manager, the clock at the decision, and the code
-- encoded from the entropy drawn for it.
pub record AuthorizeReadings : Type 0 where
  pub access : AccessTimes
  pub decided : Instant
  pub raw_code : AuthResult String

-- `result.map_err(|_| e)` to an error of the framework, and `match result { .. }`.
abbrev pub or_bad_request : {A : Type 0} → String → OAuthResult A → AuthResult A
or_bad_request message (accepted a) = ok a
or_bad_request message (refused _) = err (bad_request message)

abbrev pub or_invalid : {A : Type 0} → String → AuthResult A → AuthResult A
or_invalid message (ok a) = ok a
or_invalid message (err _) = err (bad_request message)

-- The `state` that is echoed.
abbrev state_param : Option String → List (String × String)
state_param none = []
state_param (some state) = ("state", state) ∷ []

-- What `authenticated_subject` makes of the answer of `require_session`.
abbrev pub subject_of : AuthResult (User × Session) → AuthResult (Option AuthenticatedSubject)
subject_of (ok (user, session)) =
    if user.id == ""
    then err (internal "session user id is not a valid subject")
    else ok (some (record { subject = user.id; auth_time = session.created_at }))
subject_of (err unauthenticated) = ok none
subject_of (err e) = err e

-- The row of a grant.
abbrev pub new_code : AuthorizationGrant → String → NewAuthorizationCode
new_code grant code = record {
  code = code;
  client_id = grant.client_id;
  subject = grant.subject;
  redirect_uri = grant.redirect_uri;
  scope = grant.scope;
  code_challenge = grant.code_challenge;
  code_challenge_method = grant.code_challenge_method;
  nonce = grant.nonce;
  auth_time = grant.auth_time;
  expires_at = grant.expires_at;
}

-- The request that the decision is made on.
abbrev pub request_of : AuthRequest → String → String → AuthorizeParams → AuthorizationRequest
request_of req client_id redirect_uri params = record {
  client_id = client_id;
  redirect_uri = redirect_uri;
  scope = params.scope;
  code_challenge = params.code_challenge;
  code_challenge_method = params.code_challenge_method;
  nonce = params.nonce;
  state = query req "state";
  prompt = params.prompt;
}

module _ (config : AuthorizeConfig) where
  abbrev pub redirect_with_params : String → List (String × String) → AuthResponse
  redirect_with_params redirect_uri params =
      let separator = if is_some (find? redirect_uri "?") then "&" else "?" in
      with_header "Location" (concat redirect_uri (concat separator (config.serialize params)))
        (new 302)

  abbrev pub redirect_code_response : String → String → Option String → AuthResponse
  redirect_code_response redirect_uri code state =
      redirect_with_params redirect_uri (("code", code) ∷ state_param state)

  abbrev pub redirect_error_response : String → Option String → OAuthError → AuthResponse
  redirect_error_response redirect_uri state e =
      redirect_with_params redirect_uri
        (("error", as_str e.code) ∷ ("error_description", e.description) ∷ state_param state)

  abbrev pub authorize_return_to : AuthRequest → String
  authorize_return_to req = elim req.query [
    | [] ↦ req.path
    | _ ∷ _ ↦ concat req.path (concat "?" (config.serialize req.query))
  ]

  unfoldable pub authenticated_subject :
      AuthRequest → AccessTimes → Action MemoryDatabaseAdapter (Option AuthenticatedSubject)
  authenticated_subject req t db =
      let (r, db') = require_session config.cookies config.session req t db in (subject_of r, db')

  -- `match decision`
  abbrev pub execute :
      AuthorizeDecision
      → AuthRequest
      → AuthResult String
      → Action MemoryDatabaseAdapter AuthResponse
  execute (issue_code grant) req raw_code = do
    code ← lift raw_code
    _ ← create_authorization_code (new_code grant code)
    pure (redirect_code_response grant.redirect_uri code grant.state)
  execute require_login req raw_code = do
    login_url ← found_or (internal "login hook is required for RequireLogin") config.login_hook
    pure (with_header "Location" (login_url (authorize_return_to req)) (new 302))
  execute (deny e redirect_uri state) req raw_code =
      pure (redirect_error_response redirect_uri state e)

  -- `handle_authorize` once the redirect URI is trusted: an error of the parameters goes back by it.
  unfoldable pub authorize_client :
      AuthRequest
      → String
      → String
      → OAuthResult AuthorizeParams
      → AuthorizeReadings
      → Action MemoryDatabaseAdapter AuthResponse
  authorize_client req client_id redirect_uri (refused e) t =
      pure (redirect_error_response redirect_uri (query req "state") e)
  authorize_client req client_id redirect_uri (accepted params) t = do
    subject ← authenticated_subject req t.access
    let request : AuthorizationRequest = request_of req client_id redirect_uri params
    execute
        (decide_authorization request subject (is_some config.login_hook) t.decided config.code_ttl)
        req t.raw_code

  -- `OidcProviderPlugin::handle_authorize`
  unfoldable pub handle_authorize :
      AuthRequest → AuthorizeReadings → Action MemoryDatabaseAdapter AuthResponse
  handle_authorize req t = do
    client_id_raw ← found_or (bad_request "client_id is required") (query req "client_id")
    client_id ←
        lift (or_invalid "invalid client_id" (parse_client_id config.platform client_id_raw))
    client ← get_client client_id
    client ← found_or (bad_request "unknown client") client
    redirect_raw ← found_or (bad_request "redirect_uri is required") (query req "redirect_uri")
    redirect_uri ← lift (
        or_bad_request "redirect_uri does not match a registered URI"
          (validate_redirect_uri client redirect_raw))
    authorize_client req client_id redirect_uri
        (parse_authorize_params config.split_whitespace req client) t
