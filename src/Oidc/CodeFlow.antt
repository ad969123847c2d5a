-- ===== src/Oidc/CodeFlow.antt =====
-- The authorization-code flow: an authorization of a signed-in user and the redemption of its code
-- at the token endpoint.
use better_auth_rs_worker.Prelude.{
  ◌<◌, ◌+◌, ◌/◌, String, false, none, some, ◌≡◌, ◌≢◌, refl, ap, ◌∙◌, arith, ◌==◌, is_some,
}
use better_auth_rs_worker.Error.{ok}
use better_auth_rs_worker.HashMap.{get, insert}
use better_auth_rs_worker.HashMap.Laws.{get-insert_self, get-remove_self}
use better_auth_rs_worker.Entity.{Instant, User, Session}
use better_auth_rs_worker.Http.{AuthRequest, Body, json}
use better_auth_rs_worker.Memory.{MemoryDatabaseAdapter}
use better_auth_rs_worker.Memory.OidcOps.{get_client, create_authorization_code, code_record}
use better_auth_rs_worker.Oidc.Model.{OAuthClient, AuthorizationCodeRecord}
use better_auth_rs_worker.Oidc.OAuthError.{accepted}
use better_auth_rs_worker.Oidc.Requests.{login_mode}
use better_auth_rs_worker.Oidc.Rules.{validate_redirect_uri}
use better_auth_rs_worker.Oidc.Decide.{decide_authorization, issue_code, authorization_grant}
use better_auth_rs_worker.Oidc.Decide.Grants.{grant_of, decide_authorization_issues}
use better_auth_rs_worker.Oidc.Claims.{IdTokenClaims, build_id_token_claims}
use better_auth_rs_worker.Oidc.FormRequest.{Platform, parse_client_id}
use better_auth_rs_worker.Oidc.TokenEndpoint.{
  Runtime, ProviderConfig, join, claims_of, handle_token,
}
use better_auth_rs_worker.Oidc.TokenEndpoint.Redeem.{granted_token}
use better_auth_rs_worker.Oidc.AuthorizeRequest.{query, AuthorizeParams, parse_authorize_params}
use better_auth_rs_worker.Oidc.Authorize.{
  AuthorizeConfig, AuthorizeReadings, new_code, request_of, redirect_code_response,
  authenticated_subject, authorize_client, handle_authorize,
}
use better_auth_rs_worker.Session.Request.{require_session, require_session-Authenticates}
use better_auth_rs_worker.Oidc.TokenEndpoint.Accepted.{IsPresented, handle_token_ok}

module _ (config : AuthorizeConfig) (req : AuthRequest) (t : AuthorizeReadings)
    (db : MemoryDatabaseAdapter) (client_id redirect_uri code : String) (client : OAuthClient)
    (params : AuthorizeParams) (user : User) (session : Session)
    (named : query req "client_id" ≡ some client_id)
    (readable : parse_client_id config.platform client_id ≡ ok client_id)
    (known : get client_id db.oidc_clients ≡ some client)
    (requested : query req "redirect_uri" ≡ some redirect_uri)
    (registered : validate_redirect_uri client redirect_uri ≡ accepted redirect_uri)
    (parsed : parse_authorize_params config.split_whitespace req client ≡ accepted params)
    (authenticated : (require_session config.cookies config.session req t.access db).0
      ≡ ok (user, session))
    (subject : (user.id == "") ≡ false) (silent : params.prompt ≢ login_mode)
    (drawn : t.raw_code ≡ ok code) where
  -- The code that the authorization stores, and the store with it.
  abbrev pub code_row : AuthorizationCodeRecord
  code_row = code_record (
      new_code
        (authorization_grant (request_of req client_id redirect_uri params)
          (record { subject = user.id; auth_time = session.created_at }) t.decided config.code_ttl)
        code)

  abbrev authorized : MemoryDatabaseAdapter
  authorized =
      let db1 = (require_session config.cookies config.session req t.access db).1 in
      record db1 { oidc_codes = insert code code_row db1.oidc_codes }

  decided :
      decide_authorization
        (request_of req client_id redirect_uri params)
        (some (record { subject = user.id; auth_time = session.created_at }))
        (is_some config.login_hook)
        t.decided
        config.code_ttl
      ≡ issue_code (
          authorization_grant
            (request_of req client_id redirect_uri params)
            (record { subject = user.id; auth_time = session.created_at })
            t.decided
            config.code_ttl)
  decided =
      (decide_authorization_issues (request_of req client_id redirect_uri params) _
          (is_some config.login_hook) t.decided config.code_ttl _).1
        (silent, (_, refl, refl))

  handle_authorize_ok :
      handle_authorize config req t db
      ≡ (ok (redirect_code_response config redirect_uri code (query req "state")), authorized)
  unfolding handle_authorize authorize_client authenticated_subject get_client
      create_authorization_code
  handle_authorize_ok =
      rw (named, readable, known, requested, registered, parsed, authenticated, subject, decided)
        (ground arith)

  module _ (platform : Platform) (runtime : Runtime) (provider : ProviderConfig) where
    -- What holds after the authorization and the redemption.
    abbrev Granted : String → AuthRequest → Instant → Type 0
    Granted token req' now =
        let (answer, db') = handle_authorize config req t db in
        let (answer', db'') = handle_token platform runtime provider req' now db' in
        (answer ≡ ok (redirect_code_response config redirect_uri code (query req "state")))
        × ((id_token : String) × (answer'
              ≡ ok (
                  json 200 (
                    Body.token_response token "Bearer" (provider.access_token_ttl / 1000000000)
                      id_token (join params.scope.scopes)))))
        × (get (platform.sha256_base64url token) db''.oidc_access_tokens
            ≡ some (record {
              token_hash = platform.sha256_base64url token;
              client_id = client_id;
              subject = user.id;
              scope = params.scope;
              expires_at = now + provider.access_token_ttl;
              created_at = now;
            }))
        × (get code db''.oidc_codes ≡ none)

    -- If a request to authorize names a stored client, one of its redirect URIs and accepted
    -- parameters without the login prompt, and carries the session of a user whose id is not
    -- empty, and that client presents the code at the token endpoint before it expires, with the
    -- redirect URI, the verifier of the challenge and its own authentication, then, as long as
    -- the entropy and the signer do not fail, the first request is answered with the code and the
    -- second with tokens for the scopes; the hash of the access token is stored for the user, and
    -- the code is gone.
    pub authorize-token :
        (req' : AuthRequest) (now : Instant) (token : String)
        → IsPresented platform runtime provider req' client code_row
        → client_id ≡ client.client_id
        → now < t.decided + config.code_ttl
        → runtime.raw_token ≡ ok token
        → ((claims : IdTokenClaims) → (s : String) × (runtime.sign_id_token claims ≡ ok s))
        → Granted token req' now
    authorize-token req' now token h same_client live drawn' signer =
        let db1 = (require_session config.cookies config.session req t.access db).1 in
        let (_, clients, _) =
          require_session-Authenticates config.cookies config.session req t.access db in
        let (id_token, signed) = signer (
          build_id_token_claims provider.issuer (grant_of code_row)
            (claims_of (get user.id db1.users)) now provider.id_token_ttl) in
        let step =
          handle_token_ok platform runtime provider req' client code_row h same_client now live
            id_token token drawn' authorized signed (get-insert_self code code_row db1.oidc_codes)
            (ap (get client_id) clients ∙ known) in
        rw (handle_authorize_ok, step)
          (
            refl,
            (id_token, refl),
            get-insert_self (platform.sha256_base64url token)
                (granted_token platform provider (grant_of code_row) now token)
                authorized.oidc_access_tokens,
            get-remove_self code authorized.oidc_codes,
          )
