-- ===== src/Oidc/Decide/Grants.antt =====
-- What a client must show at the token endpoint, and what the authorization endpoint decides.
use better_auth_rs_worker.Prelude.{
  ◌<◌, String, Bool, Option, none, some, eq_iff, eq_refl, ◌≡◌, ◌≢◌, ◌⊎◌, ◌↔◌, refl, arith, inl, inr,
  Option-cases, Bool-cases,
}
use better_auth_rs_worker.Entity.{Instant, Duration}
use better_auth_rs_worker.Oidc.Model.{
  OAuthClient, ClientType, public, confidential, s256, CodeChallengeMethod, AuthorizationCodeRecord,
}
use better_auth_rs_worker.Oidc.OAuthError.{
  OAuthErrorCode, OAuthError, OAuthResult, accepted, refused,
}
use better_auth_rs_worker.Oidc.Requests.{
  PromptMode, default_mode, none_mode, login_mode, AuthenticatedSubject, AuthorizationRequest,
  TokenRequest,
}
use better_auth_rs_worker.Oidc.Rules.{verify_pkce}
use better_auth_rs_worker.Oidc.Decide.{
  authenticate_client, decide_token_grant, decide_authorization, TokenGrant, AuthorizationGrant,
  issue_code, authorization_grant,
}

-- The one challenge method: the PKCE test is the comparison of the hashes.
verify_pkce_accepted :
    (h : String → String) (challenge : String) (m : CodeChallengeMethod) (verifier : String)
    → verify_pkce h challenge m verifier ≡ accepted tt
    → h verifier ≡ challenge
unfolding verify_pkce
verify_pkce_accepted h challenge s256 verifier e = ground (arith, eq_iff (h verifier) challenge)

accepted-cases : (r : OAuthResult Unit) → (r ≡ accepted tt) ⊎ ((e : OAuthError) × (r ≡ refused e))
accepted-cases (accepted tt) = inl refl
accepted-cases (refused e) = inr (e, refl)

ClientType-cases : (t : ClientType) → (t ≡ public) ⊎ (t ≡ confidential)
ClientType-cases public = inl refl
ClientType-cases confidential = inr refl

pub PromptMode-cases : (m : PromptMode) → (m ≡ default_mode) ⊎ ((m ≡ none_mode) ⊎ (m ≡ login_mode))
PromptMode-cases default_mode = inl refl
PromptMode-cases none_mode = inr (inl refl)
PromptMode-cases login_mode = inr (inr refl)

-- The grant that a code stands for.
abbrev pub grant_of : AuthorizationCodeRecord → TokenGrant
grant_of r = record {
  client_id = r.client_id;
  subject = r.subject;
  scope = r.scope;
  nonce = r.nonce;
  auth_time = r.auth_time;
}

module _ (sha256_base64url : String → String) where
  -- A client authenticates exactly when it is public and presents no secret, or confidential with
  -- a secret whose hash is the stored one.
  pub authenticate_client_iff :
      (client : OAuthClient) (secret : Option String)
      → (authenticate_client sha256_base64url client secret ≡ accepted tt) ↔ (
          ((client.client_type ≡ public) × (secret ≡ none))
          ⊎ ((client.client_type ≡ confidential)
              × ((s : String) × (secret ≡ some s)
                  × (client.secret_hash ≡ some (sha256_base64url s)))))
  unfolding authenticate_client
  authenticate_client_iff client secret = elim (ClientType-cases client.client_type) [
    | inl t ↦ elim (Option-cases secret) [
      | inl n ↦ (λ e. inl (t, n), λ h. ground arith)
      | inr (s, p) ↦
          (λ e. ground arith, λ h. elim h [ inl (_, q) ↦ ground arith | inr (q, _) ↦ ground arith ])
    ]
    | inr t ↦ elim (Option-cases secret) [
      | inl n ↦ (
        λ e. ground arith,
        λ h. elim h [ inl (q, _) ↦ ground arith | inr (_, (_, q, _)) ↦ ground arith ],
      )
      | inr (s, p) ↦ elim (Option-cases client.secret_hash) [
        | inl n ↦ (
          λ e. ground arith,
          λ h. elim h [ inl (q, _) ↦ ground arith | inr (_, (_, _, q)) ↦ ground arith ],
        )
        | inr (stored, q) ↦ (
          λ e. inr (t, (s, p, ground (arith, eq_iff (sha256_base64url s) stored))),
          λ h. elim h [
            | inl (q, _) ↦ ground arith
            | inr (_, (s', p', q')) ↦ ground (
              arith,
              eq_refl stored,
              eq_iff (sha256_base64url s) stored,
              eq_iff (sha256_base64url s') stored,
            )
          ],
        )
      ]
    ]
  ]

  -- Every refusal of a client is `invalid_client`.
  pub authenticate_client_refused :
      (client : OAuthClient) (secret : Option String) (e : OAuthError)
      → authenticate_client sha256_base64url client secret ≡ refused e
      → e.code ≡ OAuthErrorCode.invalid_client
  unfolding authenticate_client
  authenticate_client_refused client secret e p = ground (
    arith,
    ClientType-cases client.client_type,
    Option-cases secret,
    Option-cases client.secret_hash,
  )

  -- A grant for a consumed code is made only before the expiry of the code, to the client it was
  -- issued to, for the redirect URI it was issued for and with a verifier that hashes to its
  -- challenge; the grant carries the client, subject, scope, nonce and time of authentication of
  -- the code.
  pub decide_token_grant_lem :
      (request : TokenRequest) (client : OAuthClient) (r : AuthorizationCodeRecord) (now : Instant)
      (grant : TokenGrant)
      → decide_token_grant sha256_base64url request client (some r) now ≡ accepted grant
      → (now < r.expires_at)
        × (r.client_id ≡ client.client_id)
        × (r.redirect_uri ≡ request.redirect_uri)
        × ((v : String) × (request.code_verifier ≡ some v)
            × (sha256_base64url v ≡ r.code_challenge))
        × (grant ≡ grant_of r)
  unfolding decide_token_grant
  decide_token_grant_lem request client r now grant e = elim (Option-cases request.code_verifier) [
    | inl n ↦ ground arith
    | inr (v, p) ↦
        elim (accepted-cases
          (verify_pkce sha256_base64url r.code_challenge r.code_challenge_method v)) [
            | inr (f, q) ↦ ground arith
            | inl q ↦ (
              ground arith,
              ground (arith, eq_iff r.client_id client.client_id),
              ground (arith, eq_iff r.redirect_uri request.redirect_uri),
              (v, p, verify_pkce_accepted sha256_base64url _ _ v q),
              ground arith,
            )
          ]
  ]

-- The decision is to issue a code with a given grant exactly when there is a subject, the login
-- prompt was not asked for, and the grant is the one bound to the request, the subject and the
-- expiry `now + ttl`.
pub decide_authorization_issues :
    (request : AuthorizationRequest) (subject : Option AuthenticatedSubject) (hook : Bool)
    (now : Instant) (ttl : Duration) (grant : AuthorizationGrant)
    → (decide_authorization request subject hook now ttl ≡ issue_code grant) ↔ (
        (request.prompt ≢ login_mode)
        × ((sub : AuthenticatedSubject) × (subject ≡ some sub)
            × (grant ≡ authorization_grant request sub now ttl)))
unfolding decide_authorization
decide_authorization_issues request none hook now ttl grant =
    elim (PromptMode-cases request.prompt) [
      | inl p ↦ (
        λ e. elim (Bool-cases hook) [ inl _ ↦ ground arith | inr _ ↦ ground arith ],
        λ h. ground arith,
      )
      | inr (inl p) ↦ (λ e. ground arith, λ h. ground arith)
      | inr (inr p) ↦ (
        λ e. elim (Bool-cases hook) [ inl _ ↦ ground arith | inr _ ↦ ground arith ],
        λ h. ground arith,
      )
    ]
decide_authorization_issues request (some sub) hook now ttl grant =
    elim (PromptMode-cases request.prompt) [
      | inl p ↦
          (λ e. (λ q. ground arith, (sub, refl, ground arith)), λ (_, (s, q, g)). ground arith)
      | inr (inl p) ↦
          (λ e. (λ q. ground arith, (sub, refl, ground arith)), λ (_, (s, q, g)). ground arith)
      | inr (inr p) ↦ (
        λ e. elim (Bool-cases hook) [ inl _ ↦ ground arith | inr _ ↦ ground arith ],
        λ (n, _). ground arith,
      )
    ]
