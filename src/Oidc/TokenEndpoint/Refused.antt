-- ===== src/Oidc/TokenEndpoint/Refused.antt =====
-- What the token endpoint does for a request that no stored client authenticates.
use better_auth_rs_worker.Prelude.{
  String, Option, none, some, ◌≡◌, ◌∙◌, ap, sym, refl, ◌⊎◌, arith, inl, inr, Option-cases,
}
use better_auth_rs_worker.Error.{ok, AuthResult, AuthResult-cases}
use better_auth_rs_worker.HashMap.{get}
use better_auth_rs_worker.Entity.{Instant}
use better_auth_rs_worker.Http.{AuthRequest, AuthResponse, Body, json}
use better_auth_rs_worker.Memory.{MemoryDatabaseAdapter}
use better_auth_rs_worker.Memory.OidcOps.{get_client}
use better_auth_rs_worker.Oidc.Model.{OAuthClient, public, confidential}
use better_auth_rs_worker.Oidc.OAuthError.{
  OAuthError, OAuthErrorCode, accepted, oauth_error_response, http_status, as_str,
}
use better_auth_rs_worker.Oidc.Decide.{authenticate_client}
use better_auth_rs_worker.Oidc.Decide.Grants.{authenticate_client_iff, authenticate_client_refused}
use better_auth_rs_worker.Oidc.TokenEndpoint.Redeem.{OAuthResult-cases}
use better_auth_rs_worker.Oidc.FormRequest.{
  Platform, parse_form, parse_client_id, client_credentials,
}
use better_auth_rs_worker.Oidc.FormRequest.Refusal.{client_credentials_refused}
use better_auth_rs_worker.Oidc.TokenEndpoint.{Runtime, ProviderConfig, as_client, handle_token}

module _ (platform : Platform) where
  -- The request carries the credentials of a stored client: a public client without a secret, or a
  -- confidential one with the secret whose hash is stored.
  abbrev pub IsAuthenticated : AuthRequest → MemoryDatabaseAdapter → Type 0
  IsAuthenticated req db =
      (client_id : String) × (secret : Option String) × (client : OAuthClient) × (client_credentials
          platform req (parse_form platform req)
        ≡ accepted (client_id, secret))
      × (get client_id db.oidc_clients ≡ some client)
      × (((client.client_type ≡ public) × (secret ≡ none))
          ⊎ ((client.client_type ≡ confidential)
              × ((s : String) × (secret ≡ some s)
                  × (client.secret_hash ≡ some (platform.sha256_base64url s)))))

  -- The answer to a client that does not authenticate.
  abbrev Refuses : MemoryDatabaseAdapter → AuthResult AuthResponse × MemoryDatabaseAdapter → Type 0
  Refuses db (answer, db') =
      ((description : String) × (answer
          ≡ ok (json 401 (Body.oauth_error_body "invalid_client" description))))
      × (db' ≡ db)

  refused-Refuses :
      (e : OAuthError) (db : MemoryDatabaseAdapter)
      → e.code ≡ OAuthErrorCode.invalid_client
      → Refuses db (ok (oauth_error_response e), db)
  unfolding oauth_error_response http_status as_str
  refused-Refuses e db p = ((e.description, ground arith), refl)

  module _ (runtime : Runtime) (config : ProviderConfig) where
    -- If the form of a request asks for the authorization-code grant, and the request does not
    -- carry the credentials of a stored client (a public one without a secret, or a confidential
    -- one with the secret whose hash is stored), then the token endpoint answers 401 with
    -- `invalid_client`, and the store, the codes included, stays as it is.
    pub handle_token_refused :
        (req : AuthRequest) (now : Instant) (db : MemoryDatabaseAdapter)
        → get "grant_type" (parse_form platform req) ≡ some "authorization_code"
        → ¬ IsAuthenticated req db
        → let (answer, db') = handle_token platform runtime config req now db in
          ((description : String) × (answer
              ≡ ok (json 401 (Body.oauth_error_body "invalid_client" description))))
          × (db' ≡ db)
    unfolding handle_token as_client get_client
    handle_token_refused req now db granted foreign =
        let form = parse_form platform req in
        elim (OAuthResult-cases (client_credentials platform req form)) [
          | inr (e, c) ↦
              rw (granted, c)
                (refused-Refuses e db (client_credentials_refused platform req form e c))
          | inl ((raw, secret), c) ↦ elim (AuthResult-cases (parse_client_id platform raw)) [
            | inr (e, k) ↦ rw (granted, c, k) (refused-Refuses _ db refl)
            | inl (client_id, k) ↦
                let same : client_id ≡ raw = ground arith in
                elim (Option-cases (get client_id db.oidc_clients)) [
                  | inl n ↦ rw (granted, c, k, n) (refused-Refuses _ db refl)
                  | inr (client, n) ↦
                      elim (OAuthResult-cases
                        (authenticate_client platform.sha256_base64url client secret)) [
                          | inr (e, a) ↦
                              rw (granted, c, k, n, a)
                                (refused-Refuses e db (
                                  authenticate_client_refused platform.sha256_base64url client
                                    secret e a))
                          | inl (_, a) ↦ absurd (
                              foreign (
                                client_id,
                                secret,
                                client,
                                c ∙ ap (λ i. accepted (i, secret)) (sym same),
                                n,
                                (authenticate_client_iff platform.sha256_base64url client secret).0
                                    a,
                              ))
                        ]
                ]
          ]
        ]
