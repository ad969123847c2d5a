-- ===== src/Oidc/Model.antt =====
-- crates/core/src/oidc/model.rs: value objects and persistence records. A value object wraps a text
-- that its `parse` accepted; the wrapper is not kept here, and `parse` returns the text.
use better_auth_rs_worker.Prelude.{String, Bool, Option, List, ◌==◌, any}
use better_auth_rs_worker.Entity.{Instant}

-- `ScopeSet`: the scope tokens, in order.
pub record ScopeSet : Type 0 where
  pub scopes : List String

-- `ScopeSet::contains`
abbrev pub contains : String → ScopeSet → Bool
contains scope set = any (λ s. s == scope) set.scopes

-- `CodeChallengeMethod`: `plain` is not a value of the type.
pub data CodeChallengeMethod : Type 0 where
  s256 : CodeChallengeMethod

pub data ClientType : Type 0 where
  public confidential : ClientType

-- `GrantType`: v1 knows one.
pub data GrantType : Type 0 where
  authorization_code : GrantType

pub data TokenEndpointAuthMethod : Type 0 where
  client_secret_basic client_secret_post none_method : TokenEndpointAuthMethod

-- `OAuthClient`
pub record OAuthClient : Type 0 where
  pub client_id : String
  pub client_type : ClientType
  pub redirect_uris : List String
  pub allowed_scopes : ScopeSet
  pub allowed_grant_types : List GrantType
  pub secret_hash : Option String
  pub token_endpoint_auth_method : TokenEndpointAuthMethod

pub record NewAuthorizationCode : Type 0 where
  pub code : String
  pub client_id : String
  pub subject : String
  pub redirect_uri : String
  pub scope : ScopeSet
  pub code_challenge : String
  pub code_challenge_method : CodeChallengeMethod
  pub nonce : Option String
  pub auth_time : Instant
  pub expires_at : Instant

pub record AuthorizationCodeRecord : Type 0 where
  pub code : String
  pub client_id : String
  pub subject : String
  pub redirect_uri : String
  pub scope : ScopeSet
  pub code_challenge : String
  pub code_challenge_method : CodeChallengeMethod
  pub nonce : Option String
  pub auth_time : Instant
  pub expires_at : Instant

pub record NewAccessToken : Type 0 where
  pub token_hash : String
  pub client_id : String
  pub subject : String
  pub scope : ScopeSet
  pub expires_at : Instant
  pub created_at : Instant

pub record AccessTokenRecord : Type 0 where
  pub token_hash : String
  pub client_id : String
  pub subject : String
  pub scope : ScopeSet
  pub expires_at : Instant
  pub created_at : Instant
