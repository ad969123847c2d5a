-- ===== src/Entity/Sessions.antt =====
-- Sessions.
use better_auth_rs_worker.Prelude.{String, Bool, true, Option}
use better_auth_rs_worker.Entity.Base.{Instant}

pub record Session : Type 0 where
  pub id : String
  pub expires_at : Instant
  pub token : String
  pub created_at : Instant
  pub updated_at : Instant
  pub ip_address : Option String
  pub user_agent : Option String
  pub user_id : String
  pub impersonated_by : Option String
  pub active_organization_id : Option String
  pub active : Bool

pub record CreateSession : Type 0 where
  pub id : Option String
  pub token : Option String
  pub user_id : String
  pub created_at : Option Instant
  pub expires_at : Instant
  pub ip_address : Option String
  pub user_agent : Option String
  pub impersonated_by : Option String
  pub active_organization_id : Option String

-- `MemorySession::from_create`
unfoldable pub from_create : String → String → CreateSession → Instant → Session
from_create id token create now = record {
  id = id;
  token = token;
  expires_at = create.expires_at;
  created_at = now;
  updated_at = now;
  ip_address = create.ip_address;
  user_agent = create.user_agent;
  user_id = create.user_id;
  impersonated_by = create.impersonated_by;
  active_organization_id = create.active_organization_id;
  active = true;
}
