-- ===== src/Oidc/Rules.antt =====
-- crates/api/src/plugins/oidc_provider/rules.rs and the hash and expiry test of token.rs. SHA-256
-- and base64url are third-party code: `sha256_base64url` stands for their composition.
use better_auth_rs_worker.Prelude.{
  String, Bool, Option, List, [], ◌∷◌, ◌==◌, if◌then◌else◌, concat, leb, find, is_none,
}
use better_auth_rs_worker.Entity.{Instant}
use better_auth_rs_worker.Oidc.Model.{
  ScopeSet, OAuthClient, CodeChallengeMethod, s256, public, confidential, contains,
}
use better_auth_rs_worker.Oidc.OAuthError.{
  OAuthErrorCode, OAuthResult, accepted, refused, oauth_error, required,
}

module _ (sha256_base64url : String → String) where
  unfoldable pub verify_pkce : String → CodeChallengeMethod → String → OAuthResult Unit
  verify_pkce challenge s256 verifier =
      if sha256_base64url verifier == challenge
      then accepted tt
      else refused (oauth_error OAuthErrorCode.invalid_grant "PKCE verification failed")

unfoldable pub validate_redirect_uri : OAuthClient → String → OAuthResult String
validate_redirect_uri client requested =
    required OAuthErrorCode.invalid_request "redirect_uri does not exactly match a registered URI"
      (find (λ uri. uri == requested) client.redirect_uris)

-- The loop of `validate_allowed_scopes`.
unfoldable pub each_allowed : ScopeSet → List String → OAuthResult Unit
each_allowed allowed [] = accepted tt
each_allowed allowed (scope ∷ rest) =
    let later = each_allowed allowed rest in
    if contains scope allowed
    then later
    else refused (
        oauth_error OAuthErrorCode.invalid_scope
          (concat "scope is not allowed for this client: " scope))

unfoldable pub validate_allowed_scopes : OAuthClient → ScopeSet → OAuthResult Unit
validate_allowed_scopes client requested = each_allowed client.allowed_scopes requested.scopes

unfoldable pub require_pkce_at_authorize : OAuthClient → Option String → OAuthResult Unit
require_pkce_at_authorize client code_challenge = elim client.client_type [
  | public ↦
      if is_none code_challenge
      then refused (oauth_error OAuthErrorCode.invalid_request "public clients must use PKCE")
      else accepted tt
  | confidential ↦ accepted tt
]

-- `token::is_expired`
abbrev pub is_expired : Instant → Instant → Bool
is_expired now expires_at = leb expires_at now
