-- ===== src/Oidc/TokenEndpoint/Redeem.antt =====
-- What the redemption of a code and the issuing of a token do to the store.
use better_auth_rs_worker.Prelude.{
  ◌<◌, ◌+◌, String, true, false, Option, none, some, ◌≡◌, ◌⊎◌, ap, sym, ◌∙◌, ltb, refl, arith, inl,
  inr, Option-cases, Bool-cases,
}
use better_auth_rs_worker.Error.{AuthResult-cases}
use better_auth_rs_worker.HashMap.{HashMap, get, insert, remove}
use better_auth_rs_worker.Entity.{Instant}
use better_auth_rs_worker.Memory.UserOps.{get_user_by_id}
use better_auth_rs_worker.Memory.{MemoryDatabaseAdapter}
use better_auth_rs_worker.Memory.OidcOps.{consume_authorization_code, create_access_token}
use better_auth_rs_worker.Oidc.Model.{OAuthClient, AccessTokenRecord, AuthorizationCodeRecord}
use better_auth_rs_worker.Oidc.OAuthError.{OAuthError, OAuthResult, accepted, refused}
use better_auth_rs_worker.Oidc.FormRequest.{Platform}
use better_auth_rs_worker.Oidc.Requests.{TokenRequest}
use better_auth_rs_worker.Oidc.Decide.{TokenGrant, authenticate_client, decide_token_grant}
use better_auth_rs_worker.Oidc.Decide.Grants.{decide_token_grant_lem, grant_of}
use better_auth_rs_worker.Oidc.Claims.{build_id_token_claims}
use better_auth_rs_worker.Oidc.TokenEndpoint.{
  Runtime, ProviderConfig, answer, issue_tokens, claims_of, redeem,
}

pub OAuthResult-cases :
    {A : Type 0} (r : OAuthResult A)
    → ((a : A) × (r ≡ accepted a)) ⊎ ((e : OAuthError) × (r ≡ refused e))
OAuthResult-cases (accepted a) = inl (a, refl)
OAuthResult-cases (refused e) = inr (e, refl)

-- The row that a grant's token is stored as.
abbrev pub granted_token :
    (platform : Platform) → ProviderConfig → TokenGrant → Instant → String → AccessTokenRecord
granted_token platform config grant now token = record {
  token_hash = platform.sha256_base64url token;
  client_id = grant.client_id;
  subject = grant.subject;
  scope = grant.scope;
  expires_at = now + config.access_token_ttl;
  created_at = now;
}

module _ (platform : Platform) (runtime : Runtime) (config : ProviderConfig) where
  -- Issuing touches no code, and stores at most the hash of one fresh token for the grant.
  issue_tokens_lem :
      (grant : TokenGrant) (now : Instant) (db : MemoryDatabaseAdapter)
      → let db' = (issue_tokens platform runtime config grant now db).1 in
        (db' ≡ db)
        ⊎ ((token : String) × (db' ≡ record db {
          oidc_access_tokens =
              insert
                (platform.sha256_base64url token)
                (granted_token platform config grant now token)
                db.oidc_access_tokens;
        }))
  unfolding issue_tokens get_user_by_id create_access_token
  issue_tokens_lem grant now db =
      elim (AuthResult-cases (
        runtime.sign_id_token (
          build_id_token_claims config.issuer grant (claims_of (get grant.subject db.users)) now
            config.id_token_ttl))) [
              | inr (e, p) ↦ inl (ground arith)
              | inl (t, p) ↦ elim (AuthResult-cases runtime.raw_token) [
                | inr (e, q) ↦ inl (ground arith)
                | inl (token, q) ↦ inr (token, ground arith)
              ]
            ]

  -- A redemption at `now` of the code that the form carries, by a client that authenticated: what
  -- holds of the store before it and the store after it.
  pub record Redemption (form : HashMap String) (now : Instant) (db db' : MemoryDatabaseAdapter)
      : Type 0 where
    pub client_id : String
    pub client : OAuthClient
    pub secret : Option String
    pub known : get client_id db.oidc_clients ≡ some client
    pub authenticated : authenticate_client platform.sha256_base64url client secret ≡ accepted tt
    pub code : String
    pub presented : get "code" form ≡ some code
    pub issued : AuthorizationCodeRecord
    pub stored : get code db.oidc_codes ≡ some issued
    pub unexpired : now < issued.expires_at
    pub same_client : issued.client_id ≡ client.client_id
    pub same_redirect : get "redirect_uri" form ≡ some issued.redirect_uri
    pub verifier : String
    pub verified : get "code_verifier" form ≡ some verifier
    pub challenged : platform.sha256_base64url verifier ≡ issued.code_challenge
    pub spent : db'.oidc_codes ≡ remove code db.oidc_codes
    pub token : String
    pub tokens :
        db'.oidc_access_tokens
        ≡ insert
            (platform.sha256_base64url token)
            (granted_token platform config (grant_of issued) now token)
            db.oidc_access_tokens

  -- Either no token was stored, or the code was redeemed.
  abbrev pub IsSound :
      HashMap String → Instant → MemoryDatabaseAdapter → MemoryDatabaseAdapter → Type 0
  IsSound form now db db' =
      (db'.oidc_access_tokens ≡ db.oidc_access_tokens) ⊎ Redemption form now db db'

  redeem_missing :
      (client : OAuthClient) (request : TokenRequest) (now : Instant) (db : MemoryDatabaseAdapter)
      → get request.code db.oidc_codes ≡ none
      → (redeem platform runtime config client request now db).1 ≡ db
  unfolding redeem consume_authorization_code decide_token_grant
  redeem_missing client request now db e = ground arith

  redeem_expired :
      (client : OAuthClient) (request : TokenRequest) (now : Instant) (db : MemoryDatabaseAdapter)
      (r : AuthorizationCodeRecord)
      → get request.code db.oidc_codes ≡ some r
      → ltb now r.expires_at ≡ false
      → (redeem platform runtime config client request now db).1 ≡ db
  unfolding redeem consume_authorization_code decide_token_grant
  redeem_expired client request now db r e late = ground arith

  redeem_found :
      (client : OAuthClient) (request : TokenRequest) (now : Instant) (db : MemoryDatabaseAdapter)
      (r : AuthorizationCodeRecord)
      → get request.code db.oidc_codes ≡ some r
      → ltb now r.expires_at ≡ true
      → redeem platform runtime config client request now db
        ≡ answer
            (decide_token_grant platform.sha256_base64url request client (some r) now)
            (λ grant. issue_tokens platform runtime config grant now)
            (record db { oidc_codes = remove request.code db.oidc_codes })
  unfolding redeem consume_authorization_code
  redeem_found client request now db r e live = ground arith

  issue_tokens-IsSound :
      (form : HashMap String) (client_id : String) (client : OAuthClient) (secret : Option String)
      (request : TokenRequest) (now : Instant) (db : MemoryDatabaseAdapter)
      → get client_id db.oidc_clients ≡ some client
      → authenticate_client platform.sha256_base64url client secret ≡ accepted tt
      → get "code" form ≡ some request.code
      → get "redirect_uri" form ≡ some request.redirect_uri
      → get "code_verifier" form ≡ request.code_verifier
      → (r : AuthorizationCodeRecord) (grant : TokenGrant) → get request.code db.oidc_codes ≡ some r
      → decide_token_grant platform.sha256_base64url request client (some r) now ≡ accepted grant
      → IsSound form now db
          (issue_tokens platform runtime config grant now
            (record db { oidc_codes = remove request.code db.oidc_codes })).1
  issue_tokens-IsSound form client_id client secret request now db known auth c ru v r grant e q =
      let (unexpired, same_client, same_redirect, (w, pw, hw), g) =
        decide_token_grant_lem platform.sha256_base64url request client r now grant q in
      elim (issue_tokens_lem grant now
        (record db { oidc_codes = remove request.code db.oidc_codes })) [
          | inl same ↦ inl (ap (λ d. d.oidc_access_tokens) same)
          | inr (token, p) ↦ inr (record {
            client_id = client_id;
            client = client;
            secret = secret;
            known = known;
            authenticated = auth;
            code = request.code;
            presented = c;
            issued = r;
            stored = e;
            unexpired = unexpired;
            same_client = same_client;
            same_redirect = ru ∙ ap some (sym same_redirect);
            verifier = w;
            verified = v ∙ pw;
            challenged = hw;
            spent = ap (λ d. d.oidc_codes) p;
            token = token;
            tokens =
                ap (λ d. d.oidc_access_tokens) p
                ∙ ap
                    (λ x.
                      insert (platform.sha256_base64url token)
                        (granted_token platform config x now token) db.oidc_access_tokens)
                    g;
          })
        ]

  pub redeem-IsSound :
      (form : HashMap String) (client_id : String) (client : OAuthClient) (secret : Option String)
      (request : TokenRequest) (now : Instant) (db : MemoryDatabaseAdapter)
      → get client_id db.oidc_clients ≡ some client
      → authenticate_client platform.sha256_base64url client secret ≡ accepted tt
      → get "code" form ≡ some request.code
      → get "redirect_uri" form ≡ some request.redirect_uri
      → get "code_verifier" form ≡ request.code_verifier
      → IsSound form now db (redeem platform runtime config client request now db).1
  redeem-IsSound form client_id client secret request now db known auth c ru v =
      elim (Option-cases (get request.code db.oidc_codes)) [
        | inl n ↦ inl (ap (λ d. d.oidc_access_tokens) (redeem_missing client request now db n))
        | inr (r, e) ↦ elim (Bool-cases (ltb now r.expires_at)) [
          | inr late ↦
              inl (ap (λ d. d.oidc_access_tokens) (redeem_expired client request now db r e late))
          | inl live ↦
              elim (OAuthResult-cases
                (decide_token_grant platform.sha256_base64url request client (some r) now)) [
                  | inr (f, q) ↦ inl (rw (redeem_found client request now db r e live, q) refl)
                  | inl (grant, q) ↦
                      rw (redeem_found client request now db r e live, q)
                        (issue_tokens-IsSound form client_id client secret request now db known auth
                          c ru v r grant e q)
                ]
        ]
      ]
