-- ===== src/Oidc/Authorize/Outcome.antt =====
-- What the authorization endpoint answers, and which code it stores.
use better_auth_rs_worker.Prelude.{
  ◌+◌, String, true, Option, some, ◌≡◌, refl, ap, sym, ◌∙◌, any, all, is_some, ◌==◌,
}
use better_auth_rs_worker.Error.{AuthError, AuthResult, ok, err}
use better_auth_rs_worker.HashMap.{get, insert}
use better_auth_rs_worker.Entity.{User, Session}
use better_auth_rs_worker.Http.{AuthRequest, AuthResponse, new, with_header}
use better_auth_rs_worker.Memory.{MemoryDatabaseAdapter}
use better_auth_rs_worker.Memory.OidcOps.{get_client, create_authorization_code, code_record}
use better_auth_rs_worker.Oidc.Model.{contains, OAuthClient, AuthorizationCodeRecord}
use better_auth_rs_worker.Oidc.OAuthError.{OAuthError, OAuthResult, accepted, refused}
use better_auth_rs_worker.Oidc.Requests.{AuthenticatedSubject}
use better_auth_rs_worker.Oidc.Rules.{validate_redirect_uri}
use better_auth_rs_worker.Oidc.Decide.{
  AuthorizeDecision, issue_code, require_login, deny, decide_authorization, authorization_grant,
}
use better_auth_rs_worker.Oidc.Decide.Grants.{decide_authorization_issues}
use better_auth_rs_worker.Oidc.FormRequest.{parse_client_id}
use better_auth_rs_worker.Oidc.AuthorizeRequest.{query, AuthorizeParams, parse_authorize_params}
use better_auth_rs_worker.Oidc.AuthorizeRequest.Parsed.{
  IsRequested, parse_authorize_params-IsRequested,
}
use better_auth_rs_worker.Session.Request.{
  require_session, IsAuthenticated, require_session-Authenticates,
}
use better_auth_rs_worker.Oidc.Authorize.{
  AuthorizeConfig, AuthorizeReadings, or_bad_request, or_invalid, subject_of, new_code,
  redirect_code_response, redirect_error_response, authorize_return_to, authenticated_subject,
  execute, request_of, authorize_client, handle_authorize,
}
use better_auth_rs_worker.Organization.Invitations.Keeps.{found_or-then, call-then}
use better_auth_rs_worker.Oidc.Authorize.Steps.{
  same_uri, same_client_id, subject_of-some, decide_authorization_denies,
}

module _ (config : AuthorizeConfig) (req : AuthRequest) (t : AuthorizeReadings)
    (db : MemoryDatabaseAdapter) where
  -- A redirect URI that the named client has registered and the request asks for.
  pub record IsTrusted (client_id redirect_uri : String) (client : OAuthClient) : Type 0 where
    pub named : query req "client_id" ≡ some client_id
    pub known : get client_id db.oidc_clients ≡ some client
    pub requested : query req "redirect_uri" ≡ some redirect_uri
    pub registered : any (λ u. u == redirect_uri) client.redirect_uris ≡ true

  -- What a code that is stored is bound to.
  pub record IsBound (client_id redirect_uri : String) (client : OAuthClient)
      (r : AuthorizationCodeRecord) : Type 0 where
    pub user : User
    pub session : Session
    pub authenticated : IsAuthenticated config.cookies config.session req t.access db user session
    pub of_client : r.client_id ≡ client_id
    pub back_to : r.redirect_uri ≡ redirect_uri
    pub of_user : r.subject ≡ user.id
    pub at : r.auth_time ≡ session.created_at
    pub openid : contains "openid" r.scope ≡ true
    pub allowed : all (λ s. contains s client.allowed_scopes) r.scope.scopes ≡ true
    pub challenged : query req "code_challenge" ≡ some r.code_challenge
    pub same_nonce : r.nonce ≡ query req "nonce"
    pub until : r.expires_at ≡ t.decided + config.code_ttl
    pub drawn : t.raw_code ≡ ok r.code

  -- The answers of the endpoint, beside the store that they leave.
  pub data Outcome : AuthResult AuthResponse × MemoryDatabaseAdapter → Type 0 where
    failed :
        (e : AuthError) (db' : MemoryDatabaseAdapter)
        → db'.oidc_codes ≡ db.oidc_codes
        → Outcome (err e, db')
    sent_back :
        (client_id redirect_uri : String) (client : OAuthClient) (e : OAuthError)
        (db' : MemoryDatabaseAdapter)
        → IsTrusted client_id redirect_uri client
        → db'.oidc_codes ≡ db.oidc_codes
        → Outcome (ok (redirect_error_response config redirect_uri (query req "state") e), db')
    to_login :
        (login_url : String → String) (db' : MemoryDatabaseAdapter)
        → config.login_hook ≡ some login_url
        → db'.oidc_codes ≡ db.oidc_codes
        → Outcome (
          ok (with_header "Location" (login_url (authorize_return_to config req)) (new 302)),
          db',
        )
    issued :
        (client_id redirect_uri : String) (client : OAuthClient) (r : AuthorizationCodeRecord)
        (db' : MemoryDatabaseAdapter)
        → IsTrusted client_id redirect_uri client
        → IsBound client_id redirect_uri client r
        → db'.oidc_codes ≡ insert r.code r db.oidc_codes
        → Outcome (ok (redirect_code_response config redirect_uri r.code (query req "state")), db')

  module _ (client_id redirect_uri : String) (client : OAuthClient)
      (trusted : IsTrusted client_id redirect_uri client) where
    execute-Outcome :
        (params : AuthorizeParams) (subject : Option AuthenticatedSubject)
        (db' : MemoryDatabaseAdapter)
        → db'.oidc_codes ≡ db.oidc_codes
        → IsRequested config.split_whitespace req client params
        → ((sub : AuthenticatedSubject)
            → subject ≡ some sub
            → (user : User) × (session : Session) × IsAuthenticated config.cookies config.session
                req t.access db user session
              × (sub.subject ≡ user.id)
              × (sub.auth_time ≡ session.created_at))
        → (d : AuthorizeDecision)
        → decide_authorization
            (request_of req client_id redirect_uri params)
            subject
            (is_some config.login_hook)
            t.decided
            config.code_ttl
          ≡ d
        → Outcome (execute config d req t.raw_code db')
    unfolding create_authorization_code
    execute-Outcome params subject db' same requested signed (issue_code grant) e =
        call-then Outcome t.raw_code _ db' (λ f _. failed f db' same)
          λ code p.
            let (_, (sub, q, g)) =
              (decide_authorization_issues (request_of req client_id redirect_uri params) subject
                  (is_some config.login_hook) t.decided config.code_ttl grant).0
                e in
            let (user, session, a, of_user, at) = signed sub q in
            rw g (
              issued client_id redirect_uri client
                (code_record (
                  new_code
                    (authorization_grant (request_of req client_id redirect_uri params) sub
                      t.decided config.code_ttl)
                    code))
                _ trusted
                (record {
                  user = user;
                  session = session;
                  authenticated = a;
                  of_client = refl;
                  back_to = refl;
                  of_user = of_user;
                  at = at;
                  openid = requested.openid;
                  allowed = requested.allowed;
                  challenged = requested.challenged;
                  same_nonce = requested.same_nonce;
                  until = refl;
                  drawn = p;
                })
                (ap (insert code _) same))
    execute-Outcome params subject db' same requested signed require_login e =
        found_or-then Outcome config.login_hook _ _ db' (failed _ db' same)
          λ f p. to_login f db' p same
    execute-Outcome params subject db' same requested signed (deny f uri state) e =
        let (back, echoed) =
          decide_authorization_denies (request_of req client_id redirect_uri params) subject
            (is_some config.login_hook) t.decided config.code_ttl f uri state e in
        rw (back, echoed) (sent_back client_id redirect_uri client f db' trusted same)

    authorize_client-Outcome :
        (params : OAuthResult AuthorizeParams)
        → parse_authorize_params config.split_whitespace req client ≡ params
        → Outcome (authorize_client config req client_id redirect_uri params t db)
    unfolding authorize_client authenticated_subject
    authorize_client-Outcome (refused e) p =
        sent_back client_id redirect_uri client e db trusted refl
    authorize_client-Outcome (accepted params) p =
        let out = require_session config.cookies config.session req t.access db in
        let (signed, _, codes) =
          require_session-Authenticates config.cookies config.session req t.access db in
        call-then Outcome (subject_of out.0) _ out.1 (λ f _. failed f out.1 codes)
          λ subject q.
            execute-Outcome params subject out.1 codes
              (parse_authorize_params-IsRequested config.split_whitespace req client params p)
              (λ sub r.
                let (user, session, found, of_user, at) = subject_of-some out.0 sub (q ∙ ap ok r) in
                (user, session, signed user session found, of_user, at))
              _ refl

  -- Whatever the request and the store, the authorization endpoint ends in one of four ways. It
  -- fails, it goes to the login hook, or it sends an error back to a redirect URI that the
  -- request names and the named client has registered; these store no code. Or it stores one code
  -- and sends it back to such a URI: the code is the one drawn, bound to the client, the URI, the
  -- challenge and the nonce of the request, to scopes that the client may ask for with `openid`
  -- among them, and to the user of the live session that the request carries, until `code_ttl`
  -- after the decision.
  pub handle_authorize-Outcome : Outcome (handle_authorize config req t db)
  unfolding handle_authorize get_client
  handle_authorize-Outcome =
      found_or-then Outcome (query req "client_id") _ _ db (failed _ db refl) λ raw a.
        call-then Outcome (or_invalid "invalid client_id" (parse_client_id config.platform raw)) _
          db (λ f _. failed f db refl)
          λ client_id b.
            found_or-then Outcome (get client_id db.oidc_clients) _ _ db (failed _ db refl)
              λ client c.
                found_or-then Outcome (query req "redirect_uri") _ _ db (failed _ db refl)
                  λ wanted d.
                    call-then Outcome
                      (or_bad_request "redirect_uri does not match a registered URI"
                        (validate_redirect_uri client wanted))
                      _ db (λ f _. failed f db refl)
                      λ uri e.
                        authorize_client-Outcome client_id uri client
                          (record {
                            named =
                                a ∙ ap some (sym (same_client_id config.platform raw client_id b));
                            known = c;
                            requested = d ∙ ap some (sym (same_uri client wanted uri e).0);
                            registered = (same_uri client wanted uri e).1;
                          })
                          _ refl
