-- ===== src/ApiKey.antt =====
-- crates/api/src/plugins/api_key: the error codes, the configuration and the state of the plugin,
-- and what it takes from other libraries. types.rs is in `Requests`, the validation of requests in
-- `Checks`, the permissions in `Permissions`, `validate_api_key` in `Validate` and the operations of
-- handlers.rs in `Handlers`.
pub mod Requests
pub mod Checks
pub mod Permissions
pub mod Validate
pub mod Handlers
pub mod Emulation
pub mod Keys
pub mod Metered
pub mod Usage
pub mod Accept
pub mod Ownership
use better_auth_rs_worker.Prelude.{
  ℕ, ℤ, pos, String, Bool, true, false, Option, none, some, List, [],
}
use better_auth_rs_worker.Error.{AuthError, AuthResult, bad_request}
use better_auth_rs_worker.Action.{Action}
use better_auth_rs_worker.HashMap.{HashMap}
use better_auth_rs_worker.Entity.{Instant}
use better_auth_rs_worker.Memory.{MemoryDatabaseAdapter}

-- `ApiKeyErrorCode`
pub data ApiKeyErrorCode : Type 0 where
  invalid_api_key key_disabled key_expired usage_exceeded : ApiKeyErrorCode
  key_not_found rate_limited unauthorized_session invalid_prefix_length : ApiKeyErrorCode
  invalid_name_length metadata_disabled no_values_to_update key_disabled_expiration :
      ApiKeyErrorCode
  expires_in_too_small expires_in_too_large invalid_remaining refill_amount_and_interval_required :
      ApiKeyErrorCode
  name_required invalid_user_id_from_api_key server_only_property failed_to_update_api_key :
      ApiKeyErrorCode
  invalid_metadata_type : ApiKeyErrorCode

-- `ApiKeyErrorCode::as_str`
unfoldable pub as_str : ApiKeyErrorCode → String
as_str ApiKeyErrorCode.invalid_api_key = "INVALID_API_KEY"
as_str ApiKeyErrorCode.key_disabled = "KEY_DISABLED"
as_str ApiKeyErrorCode.key_expired = "KEY_EXPIRED"
as_str ApiKeyErrorCode.usage_exceeded = "USAGE_EXCEEDED"
as_str ApiKeyErrorCode.key_not_found = "KEY_NOT_FOUND"
as_str ApiKeyErrorCode.rate_limited = "RATE_LIMITED"
as_str ApiKeyErrorCode.unauthorized_session = "UNAUTHORIZED_SESSION"
as_str ApiKeyErrorCode.invalid_prefix_length = "INVALID_PREFIX_LENGTH"
as_str ApiKeyErrorCode.invalid_name_length = "INVALID_NAME_LENGTH"
as_str ApiKeyErrorCode.metadata_disabled = "METADATA_DISABLED"
as_str ApiKeyErrorCode.no_values_to_update = "NO_VALUES_TO_UPDATE"
as_str ApiKeyErrorCode.key_disabled_expiration = "KEY_DISABLED_EXPIRATION"
as_str ApiKeyErrorCode.expires_in_too_small = "EXPIRES_IN_IS_TOO_SMALL"
as_str ApiKeyErrorCode.expires_in_too_large = "EXPIRES_IN_IS_TOO_LARGE"
as_str ApiKeyErrorCode.invalid_remaining = "INVALID_REMAINING"
as_str ApiKeyErrorCode.refill_amount_and_interval_required = "REFILL_AMOUNT_AND_INTERVAL_REQUIRED"
as_str ApiKeyErrorCode.name_required = "NAME_REQUIRED"
as_str ApiKeyErrorCode.invalid_user_id_from_api_key = "INVALID_USER_ID_FROM_API_KEY"
as_str ApiKeyErrorCode.server_only_property = "SERVER_ONLY_PROPERTY"
as_str ApiKeyErrorCode.failed_to_update_api_key = "FAILED_TO_UPDATE_API_KEY"
as_str ApiKeyErrorCode.invalid_metadata_type = "INVALID_METADATA_TYPE"

-- `ApiKeyErrorCode::message`
unfoldable pub message : ApiKeyErrorCode → String
message ApiKeyErrorCode.invalid_api_key = "Invalid API key."
message ApiKeyErrorCode.key_disabled = "API Key is disabled"
message ApiKeyErrorCode.key_expired = "API Key has expired"
message ApiKeyErrorCode.usage_exceeded = "API Key has reached its usage limit"
message ApiKeyErrorCode.key_not_found = "API Key not found"
message ApiKeyErrorCode.rate_limited = "Rate limit exceeded."
message ApiKeyErrorCode.unauthorized_session = "Unauthorized or invalid session"
message ApiKeyErrorCode.invalid_prefix_length =
    "The prefix length is either too large or too small."
message ApiKeyErrorCode.invalid_name_length = "The name length is either too large or too small."
message ApiKeyErrorCode.metadata_disabled = "Metadata is disabled."
message ApiKeyErrorCode.no_values_to_update = "No values to update."
message ApiKeyErrorCode.key_disabled_expiration = "Custom key expiration values are disabled."
message ApiKeyErrorCode.expires_in_too_small =
    "The expiresIn is smaller than the predefined minimum value."
message ApiKeyErrorCode.expires_in_too_large =
    "The expiresIn is larger than the predefined maximum value."
message ApiKeyErrorCode.invalid_remaining = "The remaining count is either too large or too small."
message ApiKeyErrorCode.refill_amount_and_interval_required =
    "refillAmount and refillInterval must both be provided together"
message ApiKeyErrorCode.name_required = "API Key name is required."
message ApiKeyErrorCode.invalid_user_id_from_api_key = "The user id from the API key is invalid."
message ApiKeyErrorCode.server_only_property =
    "The property you're trying to set can only be set from the server auth instance only."
message ApiKeyErrorCode.failed_to_update_api_key = "Failed to update API key"
message ApiKeyErrorCode.invalid_metadata_type = "metadata must be an object or undefined"

unfoldable pub api_key_error : ApiKeyErrorCode → AuthError
api_key_error code = bad_request (message code)

pub record KeyExpirationConfig : Type 0 where
  pub default_expires_in : Option ℤ
  pub disable_custom_expires_time : Bool
  pub max_expires_in : ℤ
  pub min_expires_in : ℤ

pub record RateLimitDefaults : Type 0 where
  pub enabled : Bool
  pub time_window : ℤ
  pub max_requests : ℤ

pub record ApiKeyConfig : Type 0 where
  pub key_length : ℕ
  pub prefix : Option String
  pub default_remaining : Option ℤ
  pub api_key_header : String
  pub disable_key_hashing : Bool
  pub starting_characters_length : ℕ
  pub store_starting_characters : Bool
  pub max_prefix_length : ℕ
  pub min_prefix_length : ℕ
  pub max_name_length : ℕ
  pub min_name_length : ℕ
  pub require_name : Bool
  pub enable_metadata : Bool
  pub key_expiration : KeyExpirationConfig
  pub rate_limit : RateLimitDefaults
  pub enable_session_for_api_keys : Bool

-- `ApiKeyConfig::default`
abbrev pub default_config : ApiKeyConfig
default_config = record {
  key_length = 32;
  prefix = none;
  default_remaining = none;
  api_key_header = "x-api-key";
  disable_key_hashing = false;
  starting_characters_length = 6;
  store_starting_characters = true;
  max_prefix_length = 32;
  min_prefix_length = 1;
  max_name_length = 32;
  min_name_length = 1;
  require_name = false;
  enable_metadata = false;
  key_expiration = record {
    default_expires_in = none;
    disable_custom_expires_time = false;
    max_expires_in = pos 365;
    min_expires_in = pos 0;
  };
  rate_limit = record { enabled = true; time_window = pos 86400000; max_requests = pos 10 };
  enable_session_for_api_keys = false;
}

-- What the plugin calls of other libraries. `Value` is `serde_json::Value` with its views
-- (`as_object` lists the members), its printer and its parsers, of which `permissions_from` reads a
-- map from resources to lists of actions. `add_milliseconds` is `try_milliseconds` with
-- `checked_add_signed`. `Limiter` is `governor`'s rate limiter: a new one has a period in
-- milliseconds and a burst, and a check consumes a cell where one is free.
pub record Libraries (Value Limiter : Type 0) : Type 0 where
  pub as_object : Value → Option (List (String × Value))
  pub as_array : Value → Option (List Value)
  pub as_str : Value → Option String
  pub is_null : Value → Bool
  pub value_to_string : Value → Option String
  pub value_from : String → Option Value
  pub permissions_from : String → Option (HashMap (List String))
  pub to_rfc3339 : Instant → String
  pub parse_from_rfc3339 : String → Option Instant
  pub add_milliseconds : Instant → ℤ → Option Instant
  pub sha256_base64url : String → String
  pub new_limiter : ℕ → ℕ → Instant → Limiter
  pub check_limiter : Limiter → Instant → Bool × Limiter

-- The database and the two fields of `ApiKeyPlugin` that change. `last_expired_check` is a reading
-- of the monotonic clock, in nanoseconds.
pub record State (Limiter : Type 0) : Type 0 where
  pub database : MemoryDatabaseAdapter
  pub last_expired_check : Option ℕ
  pub rate_limiters : HashMap Limiter

-- The clock's readings of one call, in their order: at the test for the expiry, at the refill, at
-- the limiter, at the write of the key, and at the cleanup by both clocks.
pub record Readings : Type 0 where
  pub checked_at : Instant
  pub refilled_at : Instant
  pub limited_at : Instant
  pub written_at : Instant
  pub ticked_at : ℕ
  pub cleaned_at : Instant

module _ {Limiter A : Type 0} where
  -- A method of the store, called by the plugin.
  abbrev pub on_database : Action MemoryDatabaseAdapter A → Action (State Limiter) A
  on_database m s = let (r, db) = m s.database in (r, record s { database = db })
