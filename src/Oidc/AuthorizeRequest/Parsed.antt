-- ===== src/Oidc/AuthorizeRequest/Parsed.antt =====
-- What the parameters of the authorization endpoint are when they are accepted.
use better_auth_rs_worker.Prelude.{
  String, true, Option, none, some, List, [], ◌∷◌, ◌≡◌, ◌∙◌, ap, refl, arith, inl, inr,
  Option-cases, all, eq_iff, get_or, leb_text, sort_by,
}
use better_auth_rs_worker.Error.{ok, AuthResult-cases}
use better_auth_rs_worker.Http.{AuthRequest}
use better_auth_rs_worker.Oidc.Model.{ScopeSet, contains, OAuthClient}
use better_auth_rs_worker.Oidc.OAuthError.{accepted}
use better_auth_rs_worker.Oidc.Requests.{parse_prompt}
use better_auth_rs_worker.Oidc.Rules.{
  validate_allowed_scopes, each_allowed, require_pkce_at_authorize,
}
use better_auth_rs_worker.Oidc.TokenEndpoint.Redeem.{OAuthResult-cases}
use better_auth_rs_worker.Oidc.AuthorizeRequest.{
  query, parse_response_type, dedup, from_scopes, parse_scopes, parse_requested_scopes,
  code_challenge_of, parse_code_challenge_method, AuthorizeParams, parse_authorize_params,
}

each_allowed-all :
    (allowed : ScopeSet) (scopes : List String)
    → each_allowed allowed scopes ≡ accepted tt
    → all (λ s. contains s allowed) scopes ≡ true
unfolding each_allowed
each_allowed-all allowed [] e = refl
each_allowed-all allowed (s ∷ rest) e = ground (arith, each_allowed-all allowed rest)

from_scopes_openid :
    (scopes : List String) (set : ScopeSet)
    → from_scopes scopes ≡ ok set
    → contains "openid" set ≡ true
unfolding from_scopes
from_scopes_openid scopes set e = ground arith

code_challenge_of_same :
    (given : Option String) (c : String)
    → code_challenge_of given ≡ accepted (some c)
    → given ≡ some c
code_challenge_of_same none c e = absurd (ground arith)
code_challenge_of_same (some raw) c e = ground arith

module _ (split_whitespace : String → List String) (req : AuthRequest) (client : OAuthClient) where
  parse_requested_scopes_openid :
      (raw : String) (set : ScopeSet)
      → parse_requested_scopes split_whitespace raw ≡ accepted set
      → contains "openid" set ≡ true
  unfolding parse_scopes
  parse_requested_scopes_openid raw set e =
      elim (AuthResult-cases (parse_scopes split_whitespace raw)) [
        | inr (f, p) ↦ absurd (ground arith)
        | inl (scope, p) ↦
            ground
              (arith, from_scopes_openid (dedup (sort_by leb_text (split_whitespace raw))) scope)
      ]

  -- What holds of accepted parameters.
  pub record IsRequested (params : AuthorizeParams) : Type 0 where
    pub for_code : query req "response_type" ≡ some "code"
    pub challenged : query req "code_challenge" ≡ some params.code_challenge
    pub openid : contains "openid" params.scope ≡ true
    pub allowed : all (λ s. contains s client.allowed_scopes) params.scope.scopes ≡ true
    pub same_nonce : params.nonce ≡ query req "nonce"

  for_code_lem :
      (given : Option String)
      → parse_response_type (get_or given "") ≡ accepted tt
      → given ≡ some "code"
  unfolding parse_response_type
  for_code_lem none e = absurd (ground arith)
  for_code_lem (some raw) e = ground (arith, eq_iff raw "code")

  pub parse_authorize_params-IsRequested :
      (params : AuthorizeParams)
      → parse_authorize_params split_whitespace req client ≡ accepted params
      → IsRequested params
  unfolding parse_authorize_params validate_allowed_scopes
  parse_authorize_params-IsRequested params e =
      elim (OAuthResult-cases (parse_response_type (get_or (query req "response_type") ""))) [
        | inr (f, p) ↦ absurd (ground arith)
        | inl (_, p) ↦
            elim (OAuthResult-cases
              (parse_requested_scopes split_whitespace (get_or (query req "scope") ""))) [
                | inr (f, q) ↦ absurd (ground arith)
                | inl (scope, q) ↦
                    elim (OAuthResult-cases (each_allowed client.allowed_scopes scope.scopes)) [
                      | inr (f, a) ↦ absurd (ground arith)
                      | inl (_, a) ↦
                          elim (OAuthResult-cases
                            (code_challenge_of (query req "code_challenge"))) [
                              | inr (f, c) ↦ absurd (ground arith)
                              | inl (given, c) ↦
                                  elim (OAuthResult-cases
                                    (require_pkce_at_authorize client given)) [
                                      | inr (f, k) ↦ absurd (ground arith)
                                      | inl (_, k) ↦ elim (Option-cases given) [
                                        | inl n ↦ absurd (ground arith)
                                        | inr (challenge, n) ↦
                                            elim (OAuthResult-cases (
                                              parse_code_challenge_method (
                                                get_or (query req "code_challenge_method")
                                                  "S256"))) [
                                                    | inr (f, m) ↦ absurd (ground arith)
                                                    | inl (method, m) ↦
                                                        elim (OAuthResult-cases
                                                          (parse_prompt (query req "prompt"))) [
                                                            | inr (f, r) ↦ absurd (ground arith)
                                                            | inl (prompt, r) ↦
                                                              let given_challenge =
                                                              code_challenge_of_same
                                                              (query req "code_challenge") challenge
                                                              (c ∙ ap accepted n) in
                                                              record {
                                                              for_code =
                                                              for_code_lem
                                                              (query req "response_type") p;
                                                              challenged = ground arith;
                                                              openid = ground (
                                                              arith,
                                                              parse_requested_scopes_openid _ scope
                                                              q,
                                                              );
                                                              allowed = ground (
                                                              arith,
                                                              each_allowed-all client.allowed_scopes
                                                              scope.scopes a,
                                                              );
                                                              same_nonce = ground arith;
                                                              }
                                                          ]
                                                  ]
                                      ]
                                    ]
                            ]
                    ]
              ]
      ]
