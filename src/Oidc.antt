-- ===== src/Oidc.antt =====
-- The OpenID Connect provider: crates/core/src/oidc and crates/api/src/plugins/oidc_provider.
pub mod Model
pub mod OAuthError
pub mod Requests
pub mod Rules
pub mod Decide
pub mod Claims
pub mod FormRequest
pub mod TokenEndpoint
pub mod UserInfo
pub mod AuthorizeRequest
pub mod Authorize
pub mod CodeFlow
