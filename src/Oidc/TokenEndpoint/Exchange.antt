-- ===== src/Oidc/TokenEndpoint/Exchange.antt =====
-- What the token endpoint does to the codes and the tokens of the store.
use better_auth_rs_worker.Prelude.{
  String, Option, none, some, ◌≡◌, ap, sym, ◌∙◌, arith, inl, inr, Option-cases,
}
use better_auth_rs_worker.Error.{ok, AuthResult-cases}
use better_auth_rs_worker.HashMap.{HashMap, get}
use better_auth_rs_worker.Entity.{Instant}
use better_auth_rs_worker.Http.{AuthRequest}
use better_auth_rs_worker.Memory.{MemoryDatabaseAdapter}
use better_auth_rs_worker.Memory.OidcOps.{get_client}
use better_auth_rs_worker.Oidc.Model.{OAuthClient}
use better_auth_rs_worker.Oidc.OAuthError.{OAuthErrorCode, accepted}
use better_auth_rs_worker.Oidc.Decide.{authenticate_client}
use better_auth_rs_worker.Oidc.TokenEndpoint.Redeem.{OAuthResult-cases, IsSound, redeem-IsSound}
use better_auth_rs_worker.Oidc.FormRequest.{
  Platform, parse_form, parse_client_id, parse_redirect_uri, client_credentials, code_verifier_of,
}
use better_auth_rs_worker.Oidc.TokenEndpoint.{
  Runtime, ProviderConfig, redeem, exchange, as_client, handle_token, or_refuse, check_grant_type,
}

parse_redirect_uri_same :
    (platform : Platform) (raw uri : String) → parse_redirect_uri platform raw ≡ ok uri → uri ≡ raw
parse_redirect_uri_same platform raw uri e = ground arith

code_verifier_of_same :
    (given verifier : Option String) → code_verifier_of given ≡ ok verifier → verifier ≡ given
code_verifier_of_same none verifier e = ground arith
code_verifier_of_same (some raw) verifier e = ground arith

module _ (platform : Platform) (runtime : Runtime) (config : ProviderConfig) where
  exchange_redeems :
      (client_id : String) (client : OAuthClient) (secret : Option String) (form : HashMap String)
      (now : Instant) (code redirect_raw redirect_uri : String) (verifier : Option String)
      → get "code" form ≡ some code
      → get "redirect_uri" form ≡ some redirect_raw
      → parse_redirect_uri platform redirect_raw ≡ ok redirect_uri
      → code_verifier_of (get "code_verifier" form) ≡ ok verifier
      → exchange platform runtime config client_id client secret form now
        ≡ redeem platform runtime config client
            (record {
              client_id = client_id;
              code = code;
              redirect_uri = redirect_uri;
              code_verifier = verifier;
              client_secret = secret;
            })
            now
  unfolding exchange
  exchange_redeems client_id client secret form now code redirect_raw redirect_uri verifier c r u
        v =
      ground arith

  exchange-IsSound :
      (form : HashMap String) (client_id : String) (client : OAuthClient) (secret : Option String)
      (now : Instant) (db : MemoryDatabaseAdapter)
      → get client_id db.oidc_clients ≡ some client
      → authenticate_client platform.sha256_base64url client secret ≡ accepted tt
      → IsSound platform runtime config form now db
          (exchange platform runtime config client_id client secret form now db).1
  unfolding exchange
  exchange-IsSound form client_id client secret now db known auth =
      elim (Option-cases (get "code" form)) [
        | inl n ↦ inl (ground arith)
        | inr (code, c) ↦ elim (Option-cases (get "redirect_uri" form)) [
          | inl n ↦ inl (ground arith)
          | inr (raw, r) ↦ elim (AuthResult-cases (parse_redirect_uri platform raw)) [
            | inr (e, n) ↦ inl (ground arith)
            | inl (uri, u) ↦ elim (AuthResult-cases (code_verifier_of (get "code_verifier" form))) [
              | inr (e, n) ↦ inl (ground arith)
              | inl (verifier, v) ↦
                  rw
                    (exchange_redeems client_id client secret form now code raw uri verifier c r u
                      v)
                    (redeem-IsSound platform runtime config form client_id client secret _ now db
                      known auth c (r ∙ ap some (sym (parse_redirect_uri_same platform raw uri u)))
                      (sym (code_verifier_of_same (get "code_verifier" form) verifier v)))
            ]
          ]
        ]
      ]

  as_client-IsSound :
      (form : HashMap String) (client_id : String) (secret : Option String) (now : Instant)
      (db : MemoryDatabaseAdapter)
      → IsSound platform runtime config form now db
          (as_client platform runtime config client_id secret form now db).1
  unfolding as_client get_client
  as_client-IsSound form client_id secret now db =
      elim (Option-cases (get client_id db.oidc_clients)) [
        | inl n ↦ inl (ground arith)
        | inr (client, known) ↦
            elim (OAuthResult-cases (authenticate_client platform.sha256_base64url client secret)) [
              | inr (e, n) ↦ inl (ground arith)
              | inl (tt, a) ↦
                  rw (known, a) (exchange-IsSound form client_id client secret now db known a)
            ]
      ]

  -- Whatever the request and the store, the token endpoint either leaves the table of access
  -- tokens as it is, or it redeems the code in the form: a stored client authenticated, the code
  -- was stored, unexpired, issued to the client id of that client and for the redirect URI in the
  -- form, and the verifier in the form hashes to its challenge; the code is removed, and the one
  -- token that is stored, under its hash, carries the code's client, subject and scope.
  pub handle_token_lem :
      (req : AuthRequest) (now : Instant) (db : MemoryDatabaseAdapter)
      → IsSound platform runtime config
          (parse_form platform req)
          now
          db
          (handle_token platform runtime config req now db).1
  unfolding handle_token
  handle_token_lem req now db =
      let form = parse_form platform req in
      elim (OAuthResult-cases (check_grant_type (get "grant_type" form))) [
        | inr (e, n) ↦ inl (ground arith)
        | inl (tt, g) ↦ elim (OAuthResult-cases (client_credentials platform req form)) [
          | inr (e, n) ↦ inl (ground arith)
          | inl ((raw, secret), c) ↦
              elim (OAuthResult-cases (
                or_refuse OAuthErrorCode.invalid_client "invalid client_id"
                  (parse_client_id platform raw))) [
                    | inr (e, n) ↦ inl (ground arith)
                    | inl (client_id, k) ↦
                        rw (g, c, k) (as_client-IsSound form client_id secret now db)
                  ]
        ]
      ]
