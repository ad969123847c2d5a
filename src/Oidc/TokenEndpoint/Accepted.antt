-- ===== src/Oidc/TokenEndpoint/Accepted.antt =====
-- The answer of the token endpoint to a client that authenticates and presents a live code.
use better_auth_rs_worker.Prelude.{
  ◌<◌, ◌/◌, String, Option, some, ◌≡◌, refl, arith, lt→ltb, eq_iff, eq_refl,
}
use better_auth_rs_worker.Error.{ok}
use better_auth_rs_worker.HashMap.{get, insert, remove}
use better_auth_rs_worker.Entity.{Instant}
use better_auth_rs_worker.Http.{AuthRequest, AuthResponse, Body, json}
use better_auth_rs_worker.Memory.{MemoryDatabaseAdapter}
use better_auth_rs_worker.Memory.UserOps.{get_user_by_id}
use better_auth_rs_worker.Memory.OidcOps.{
  get_client, consume_authorization_code, create_access_token,
}
use better_auth_rs_worker.Oidc.Model.{
  OAuthClient, CodeChallengeMethod, s256, AuthorizationCodeRecord,
}
use better_auth_rs_worker.Oidc.OAuthError.{accepted}
use better_auth_rs_worker.Oidc.Rules.{verify_pkce}
use better_auth_rs_worker.Oidc.Decide.{authenticate_client, decide_token_grant}
use better_auth_rs_worker.Oidc.Decide.Grants.{grant_of}
use better_auth_rs_worker.Oidc.Claims.{build_id_token_claims}
use better_auth_rs_worker.Oidc.FormRequest.{
  Platform, parse_form, parse_client_id, parse_redirect_uri, client_credentials, code_verifier_of,
}
use better_auth_rs_worker.Oidc.TokenEndpoint.{
  Runtime, ProviderConfig, join, claims_of, issue_tokens, redeem, exchange, as_client, handle_token,
}
use better_auth_rs_worker.Oidc.TokenEndpoint.Redeem.{granted_token}

module _ (platform : Platform) (runtime : Runtime) (provider : ProviderConfig) where
  verify_pkce_ok :
      (challenge : String) (m : CodeChallengeMethod) (verifier : String)
      → platform.sha256_base64url verifier ≡ challenge
      → verify_pkce platform.sha256_base64url challenge m verifier ≡ accepted tt
  unfolding verify_pkce
  verify_pkce_ok challenge s256 verifier e =
      ground (arith, eq_iff (platform.sha256_base64url verifier) challenge)

  -- A request of the token endpoint that presents a code with its redirect URI and verifier, by a
  -- client that authenticates.
  pub record IsPresented (req : AuthRequest) (client : OAuthClient) (r : AuthorizationCodeRecord)
      : Type 0 where
    pub secret : Option String
    pub verifier : String
    pub granted : get "grant_type" (parse_form platform req) ≡ some "authorization_code"
    pub credentials :
        client_credentials platform req (parse_form platform req) ≡ accepted (r.client_id, secret)
    pub named : parse_client_id platform r.client_id ≡ ok r.client_id
    pub authenticated : authenticate_client platform.sha256_base64url client secret ≡ accepted tt
    pub coded : get "code" (parse_form platform req) ≡ some r.code
    pub back : get "redirect_uri" (parse_form platform req) ≡ some r.redirect_uri
    pub absolute : parse_redirect_uri platform r.redirect_uri ≡ ok r.redirect_uri
    pub verified :
        code_verifier_of (get "code_verifier" (parse_form platform req)) ≡ ok (some verifier)
    pub challenged : platform.sha256_base64url verifier ≡ r.code_challenge

  module _ (req : AuthRequest) (client : OAuthClient) (r : AuthorizationCodeRecord)
      (h : IsPresented req client r) (same_client : r.client_id ≡ client.client_id) (now : Instant)
      (live : now < r.expires_at) (id_token token : String) (drawn : runtime.raw_token ≡ ok token)
      (db : MemoryDatabaseAdapter)
      (signed : runtime.sign_id_token (
          build_id_token_claims provider.issuer
            (grant_of r)
            (claims_of (get r.subject db.users))
            now
            provider.id_token_ttl)
        ≡ ok id_token)
      (stored : get r.code db.oidc_codes ≡ some r)
      (known : get r.client_id db.oidc_clients ≡ some client) where
    -- The store after the redemption.
    abbrev pub redeemed : MemoryDatabaseAdapter
    redeemed = record db {
      oidc_codes = remove r.code db.oidc_codes;
      oidc_access_tokens =
          insert (platform.sha256_base64url token)
            (granted_token platform provider (grant_of r) now token) db.oidc_access_tokens;
    }

    abbrev pub tokens_response : AuthResponse
    tokens_response = json 200 (
        Body.token_response token "Bearer" (provider.access_token_ttl / 1000000000) id_token
          (join r.scope.scopes))

    issue_tokens_ok :
        issue_tokens platform runtime provider
          (grant_of r)
          now
          (record db { oidc_codes = remove r.code db.oidc_codes })
        ≡ (ok tokens_response, redeemed)
    unfolding issue_tokens get_user_by_id create_access_token
    issue_tokens_ok = rw (signed, drawn) refl

    decide_token_grant_ok :
        decide_token_grant platform.sha256_base64url
          (record {
            client_id = r.client_id;
            code = r.code;
            redirect_uri = r.redirect_uri;
            code_verifier = some h.verifier;
            client_secret = h.secret;
          })
          client
          (some r)
          now
        ≡ accepted (grant_of r)
    unfolding decide_token_grant verify_pkce
    decide_token_grant_ok =
        let verified =
          verify_pkce_ok r.code_challenge r.code_challenge_method h.verifier h.challenged in
        ground (arith, verified, eq_refl r.redirect_uri, eq_iff r.client_id client.client_id)

    pub handle_token_ok :
        handle_token platform runtime provider req now db ≡ (ok tokens_response, redeemed)
    unfolding handle_token as_client exchange redeem get_client consume_authorization_code get
        remove insert
    handle_token_ok =
        rw
          (
            h.granted,
            h.credentials,
            h.named,
            known,
            h.authenticated,
            h.coded,
            h.back,
            h.absolute,
            h.verified,
            stored,
            lt→ltb now r.expires_at live,
            decide_token_grant_ok,
          )
          issue_tokens_ok
