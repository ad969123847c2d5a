-- ===== src/Organization.antt =====
-- The organization plugin: crates/api/src/plugins/organization.
pub mod Rbac
pub mod Members
pub mod Requests
pub mod Handlers
pub mod Administration
pub mod Invitations
