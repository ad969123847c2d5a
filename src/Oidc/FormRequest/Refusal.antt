-- ===== src/Oidc/FormRequest/Refusal.antt =====
-- How credentials that cannot be read are refused.
use better_auth_rs_worker.Prelude.{String, ◌≡◌, arith, inl, inr, Option-cases}
use better_auth_rs_worker.HashMap.{HashMap, get}
use better_auth_rs_worker.Http.{AuthRequest}
use better_auth_rs_worker.Oidc.OAuthError.{OAuthErrorCode, OAuthError, refused}
use better_auth_rs_worker.Oidc.FormRequest.{
  Platform, basic_header, basic_credentials, split_once, client_credentials,
}

module _ (platform : Platform) where
  basic_credentials_refused :
      (encoded : String) (e : OAuthError)
      → basic_credentials platform encoded ≡ refused e
      → e.code ≡ OAuthErrorCode.invalid_client
  basic_credentials_refused encoded e p =
      elim (Option-cases (platform.decode_basic (platform.trim encoded))) [
        | inl n ↦ ground arith
        | inr (decoded, d) ↦ ground (arith, Option-cases (split_once ":" decoded))
      ]

  pub client_credentials_refused :
      (req : AuthRequest) (form : HashMap String) (e : OAuthError)
      → client_credentials platform req form ≡ refused e
      → e.code ≡ OAuthErrorCode.invalid_client
  unfolding client_credentials
  client_credentials_refused req form e p = elim (Option-cases (basic_header platform req)) [
    | inr (encoded, b) ↦ ground (arith, basic_credentials_refused encoded e)
    | inl b ↦ ground (arith, Option-cases (get "client_id" form))
  ]
