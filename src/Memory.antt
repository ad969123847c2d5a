-- ===== src/Memory.antt =====
-- crates/core/src/adapters/memory.rs: the state of the in-memory adapter, one map for each table
-- and one for each secondary index. Each method holds the locks of the maps that it touches from
-- start to end, so a method is one step. The clock's reading (`now`) and the identifier drawn from
-- the runtime (`generated`, or the error that replaces it) are arguments.
pub mod UserOps
pub mod SessionOps
pub mod AccountOps
pub mod VerificationOps
pub mod OrganizationOps
pub mod MemberOps
pub mod InvitationOps
pub mod TwoFactorOps
pub mod ApiKeyOps
pub mod PasskeyOps
pub mod OidcOps
use better_auth_rs_worker.Prelude.{String, Bool, false, Option, none, some, []}
use better_auth_rs_worker.Error.{AuthResult, ok}
use better_auth_rs_worker.HashMap.{HashMap, contains_key}
use better_auth_rs_worker.Entity.{
  User, Session, Account, Verification, Organization, Member, Invitation, TwoFactor, Passkey,
  ApiKey,
}
use better_auth_rs_worker.Oidc.Model.{OAuthClient, AuthorizationCodeRecord, AccessTokenRecord}

pub record MemoryDatabaseAdapter : Type 0 where
  pub users : HashMap User
  pub sessions : HashMap Session
  pub accounts : HashMap Account
  pub verifications : HashMap Verification
  pub email_index : HashMap String
  pub username_index : HashMap String
  pub organizations : HashMap Organization
  pub members : HashMap Member
  pub invitations : HashMap Invitation
  pub slug_index : HashMap String
  pub api_keys : HashMap ApiKey
  pub two_factors : HashMap TwoFactor
  pub passkeys : HashMap Passkey
  pub passkey_credential_index : HashMap String
  pub oidc_clients : HashMap OAuthClient
  pub oidc_codes : HashMap AuthorizationCodeRecord
  pub oidc_access_tokens : HashMap AccessTokenRecord

-- `MemoryDatabaseAdapter::default`
abbrev pub new : MemoryDatabaseAdapter
new = record {
  users = [];
  sessions = [];
  accounts = [];
  verifications = [];
  email_index = [];
  username_index = [];
  organizations = [];
  members = [];
  invitations = [];
  slug_index = [];
  api_keys = [];
  two_factors = [];
  passkeys = [];
  passkey_credential_index = [];
  oidc_clients = [];
  oidc_codes = [];
  oidc_access_tokens = [];
}

-- `utils::id::supplied_or_generated_id`, and the `map_or_else` that does the same in place
abbrev pub supplied_or_generated_id : Option String → AuthResult String → AuthResult String
supplied_or_generated_id (some id) generated = ok id
supplied_or_generated_id none generated = generated

-- `if let Some(k) = key && index.contains_key(k)`
abbrev pub is_taken : Option String → HashMap String → Bool
is_taken none index = false
is_taken (some k) index = contains_key k index
