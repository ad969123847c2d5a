-- ===== src/Entity/ApiKeys.antt =====
-- API keys. Times are texts in RFC 3339, as the entity stores them; `to_rfc3339` prints an instant.
use better_auth_rs_worker.Prelude.{ℤ, pos, String, Bool, Option, none, some}
use better_auth_rs_worker.Entity.Base.{Instant, assign, assign_some}

pub record ApiKey : Type 0 where
  pub id : String
  pub name : Option String
  pub start : Option String
  pub prefix : Option String
  pub key_hash : String
  pub user_id : String
  pub refill_interval : Option ℤ
  pub refill_amount : Option ℤ
  pub last_refill_at : Option String
  pub enabled : Bool
  pub rate_limit_enabled : Bool
  pub rate_limit_time_window : Option ℤ
  pub rate_limit_max : Option ℤ
  pub request_count : Option ℤ
  pub remaining : Option ℤ
  pub last_request : Option String
  pub expires_at : Option String
  pub created_at : String
  pub updated_at : String
  pub permissions : Option String
  pub metadata : Option String

pub record CreateApiKey : Type 0 where
  pub user_id : String
  pub name : Option String
  pub prefix : Option String
  pub key_hash : String
  pub start : Option String
  pub expires_at : Option String
  pub remaining : Option ℤ
  pub rate_limit_enabled : Bool
  pub rate_limit_time_window : Option ℤ
  pub rate_limit_max : Option ℤ
  pub refill_interval : Option ℤ
  pub refill_amount : Option ℤ
  pub permissions : Option String
  pub metadata : Option String
  pub enabled : Bool

-- An inner `none` of the last fields clears the value; an outer one leaves it.
pub record UpdateApiKey : Type 0 where
  pub name : Option String
  pub enabled : Option Bool
  pub remaining : Option ℤ
  pub rate_limit_enabled : Option Bool
  pub rate_limit_time_window : Option ℤ
  pub rate_limit_max : Option ℤ
  pub refill_interval : Option ℤ
  pub refill_amount : Option ℤ
  pub permissions : Option String
  pub metadata : Option String
  pub expires_at : Option (Option String)
  pub last_request : Option (Option String)
  pub request_count : Option ℤ
  pub last_refill_at : Option (Option String)

-- `UpdateApiKey::default`
abbrev pub no_update : UpdateApiKey
no_update = record {
  name = none;
  enabled = none;
  remaining = none;
  rate_limit_enabled = none;
  rate_limit_time_window = none;
  rate_limit_max = none;
  refill_interval = none;
  refill_amount = none;
  permissions = none;
  metadata = none;
  expires_at = none;
  last_request = none;
  request_count = none;
  last_refill_at = none;
}

-- `MemoryApiKey::from_create`
unfoldable pub from_create : (Instant → String) → String → CreateApiKey → Instant → ApiKey
from_create to_rfc3339 id input now = record {
  id = id;
  name = input.name;
  start = input.start;
  prefix = input.prefix;
  key_hash = input.key_hash;
  user_id = input.user_id;
  refill_interval = input.refill_interval;
  refill_amount = input.refill_amount;
  last_refill_at = none;
  enabled = input.enabled;
  rate_limit_enabled = input.rate_limit_enabled;
  rate_limit_time_window = input.rate_limit_time_window;
  rate_limit_max = input.rate_limit_max;
  request_count = some (pos 0);
  remaining = input.remaining;
  last_request = none;
  expires_at = input.expires_at;
  created_at = to_rfc3339 now;
  updated_at = to_rfc3339 now;
  permissions = input.permissions;
  metadata = input.metadata;
}

-- `MemoryApiKey::apply_update`
unfoldable pub apply_update : (Instant → String) → UpdateApiKey → Instant → ApiKey → ApiKey
apply_update to_rfc3339 update now key = record key {
  name = assign_some update.name key.name;
  enabled = assign update.enabled key.enabled;
  remaining = assign_some update.remaining key.remaining;
  rate_limit_enabled = assign update.rate_limit_enabled key.rate_limit_enabled;
  rate_limit_time_window = assign_some update.rate_limit_time_window key.rate_limit_time_window;
  rate_limit_max = assign_some update.rate_limit_max key.rate_limit_max;
  refill_interval = assign_some update.refill_interval key.refill_interval;
  refill_amount = assign_some update.refill_amount key.refill_amount;
  permissions = assign_some update.permissions key.permissions;
  metadata = assign_some update.metadata key.metadata;
  expires_at = assign update.expires_at key.expires_at;
  last_request = assign update.last_request key.last_request;
  request_count = assign_some update.request_count key.request_count;
  last_refill_at = assign update.last_refill_at key.last_refill_at;
  updated_at = to_rfc3339 now;
}
