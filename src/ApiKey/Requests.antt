-- ===== src/ApiKey/Requests.antt =====
-- crates/api/src/plugins/api_key/types.rs: the requests and the responses.
use better_auth_rs_worker.Prelude.{ℤ, String, Bool, Option, and_then_some}
use better_auth_rs_worker.Entity.{ApiKey}
use better_auth_rs_worker.ApiKey.{Libraries}

pub record CreateKeyRequest (Value : Type 0) : Type 0 where
  pub name : Option String
  pub prefix : Option String
  pub expires_in : Option ℤ
  pub remaining : Option ℤ
  pub rate_limit_enabled : Option Bool
  pub rate_limit_time_window : Option ℤ
  pub rate_limit_max : Option ℤ
  pub refill_interval : Option ℤ
  pub refill_amount : Option ℤ
  pub permissions : Option Value
  pub metadata : Option Value

pub record UpdateKeyRequest (Value : Type 0) : Type 0 where
  pub id : String
  pub name : Option String
  pub enabled : Option Bool
  pub remaining : Option ℤ
  pub rate_limit_enabled : Option Bool
  pub rate_limit_time_window : Option ℤ
  pub rate_limit_max : Option ℤ
  pub refill_interval : Option ℤ
  pub refill_amount : Option ℤ
  pub permissions : Option Value
  pub metadata : Option Value
  pub expires_in : Option ℤ

pub record DeleteKeyRequest : Type 0 where
  pub id : String

pub record VerifyKeyRequest (Value : Type 0) : Type 0 where
  pub key : String
  pub permissions : Option Value

pub record ApiKeyView (Value : Type 0) : Type 0 where
  pub id : String
  pub name : Option String
  pub start : Option String
  pub prefix : Option String
  pub user_id : String
  pub refill_interval : Option ℤ
  pub refill_amount : Option ℤ
  pub last_refill_at : Option String
  pub enabled : Bool
  pub rate_limit_enabled : Bool
  pub rate_limit_time_window : Option ℤ
  pub rate_limit_max : Option ℤ
  pub request_count : Option ℤ
  pub remaining : Option ℤ
  pub last_request : Option String
  pub expires_at : Option String
  pub created_at : String
  pub updated_at : String
  pub permissions : Option Value
  pub metadata : Option Value

pub record CreateKeyResponse (Value : Type 0) : Type 0 where
  pub key : String
  pub api_key : ApiKeyView Value

pub record VerifyErrorBody : Type 0 where
  pub message : String
  pub code : String

pub record VerifyKeyResponse (Value : Type 0) : Type 0 where
  pub valid : Bool
  pub error : Option VerifyErrorBody
  pub key : Option (ApiKeyView Value)

module _ {Value Limiter : Type 0} (lib : Libraries Value Limiter) where
  -- `ApiKeyView::from_entity`
  unfoldable pub from_entity : ApiKey → ApiKeyView Value
  from_entity ak = record {
    id = ak.id;
    name = ak.name;
    start = ak.start;
    prefix = ak.prefix;
    user_id = ak.user_id;
    refill_interval = ak.refill_interval;
    refill_amount = ak.refill_amount;
    last_refill_at = ak.last_refill_at;
    enabled = ak.enabled;
    rate_limit_enabled = ak.rate_limit_enabled;
    rate_limit_time_window = ak.rate_limit_time_window;
    rate_limit_max = ak.rate_limit_max;
    request_count = ak.request_count;
    remaining = ak.remaining;
    last_request = ak.last_request;
    expires_at = ak.expires_at;
    created_at = ak.created_at;
    updated_at = ak.updated_at;
    permissions = and_then_some ak.permissions lib.value_from;
    metadata = and_then_some ak.metadata lib.value_from;
  }
