-- ===== src/Examples/ApiKeys.antt =====
-- Runs of the API-key plugin: a JSON value is a text, and a limiter the number of its free cells.
use better_auth_rs_worker.Prelude.{
  ℕ, ◌≤◌, ◌-◌, ◌≡◌, ◌⊎◌, refl, pos, String, true, false, Option, none, some, List, [], ◌∷◌, arith,
  ltb, eq_iff,
}
use better_auth_rs_worker.HashMap.{get, insert, remove, modify, retain}
use better_auth_rs_worker.Entity.{ApiKey}
use better_auth_rs_worker.Memory.{new}
use better_auth_rs_worker.Memory.ApiKeyOps.{
  is_kept, update_api_key, delete_api_key, get_api_key_by_hash, delete_expired_api_keys,
}
use better_auth_rs_worker.Entity.ApiKeys.{apply_update}
use better_auth_rs_worker.ApiKey.{Libraries, State, Readings, default_config}
use better_auth_rs_worker.ApiKey.Requests.{ApiKeyView, from_entity, UpdateKeyRequest}
use better_auth_rs_worker.ApiKey.Validate.{
  valid, validate_api_key, validate_key, use_key, store_use, finish, evict, maybe_delete_expired,
  hashed, is_expired, lacks_permissions, is_exhausted, due_refill, spend, limit_of,
  check_rate_limit_governor,
}
use better_auth_rs_worker.ApiKey.Handlers.{delete_key_core, update_key_core}
use better_auth_rs_worker.ApiKey.Keys.{KeysById, keys_of}
use better_auth_rs_worker.ApiKey.Usage.{uses, uses-le-remaining}
use better_auth_rs_worker.ApiKey.Accept.{IsAcceptable, validate_api_key-IsAcceptable}
use better_auth_rs_worker.ApiKey.Ownership.{foreign_key-Kept}

abbrev libraries : Libraries String ℕ
libraries = record {
  as_object = λ v. none;
  as_array = λ v. none;
  as_str = λ v. some v;
  is_null = λ v. false;
  value_to_string = λ v. some v;
  value_from = λ s. some s;
  permissions_from = λ s. none;
  to_rfc3339 = λ n. "2024-01-01T00:00:00Z";
  parse_from_rfc3339 = λ s. some 50;
  add_milliseconds = λ n ms. some n;
  sha256_base64url = λ s. s;
  new_limiter = λ period burst now. burst;
  check_limiter = λ free now. (ltb 0 free, free - 1);
}

abbrev limited : ApiKey
limited = record {
  id = "k1";
  name = none;
  start = none;
  prefix = none;
  key_hash = "secret";
  user_id = "u1";
  refill_interval = none;
  refill_amount = none;
  last_refill_at = none;
  enabled = true;
  rate_limit_enabled = true;
  rate_limit_time_window = none;
  rate_limit_max = none;
  request_count = some (pos 0);
  remaining = some (pos 2);
  last_request = none;
  expires_at = none;
  created_at = "2024-01-01T00:00:00Z";
  updated_at = "2024-01-01T00:00:00Z";
  permissions = none;
  metadata = none;
}

abbrev one_key : State ℕ
one_key = record {
  database = record new { api_keys = ("k1", limited) ∷ [] };
  last_expired_check = none;
  rate_limiters = [];
}

abbrev at_once : Readings
at_once = record {
  checked_at = 10;
  refilled_at = 10;
  limited_at = 10;
  written_at = 10;
  ticked_at = 10;
  cleaned_at = 10;
}

one_key-KeysById : KeysById (keys_of one_key)
unfolding get
one_key-KeysById = record { unique = (refl, tt); by_id = λ k v e. ground (arith, eq_iff "k1" k) }

abbrev thrice : List (String × Option String × Readings)
thrice = ("secret", none, at_once) ∷ ("secret", none, at_once) ∷ ("secret", none, at_once) ∷ []

uses-le-remaining_example : uses libraries default_config "k1" thrice one_key ≤ 2
unfolding get
uses-le-remaining_example =
    uses-le-remaining libraries default_config limited 2 thrice one_key one_key-KeysById refl refl
      refl

-- The key is accepted twice, and the third call deletes it.
twice_accepted : uses libraries default_config "k1" thrice one_key ≡ 2
unfolding get validate_api_key validate_key use_key store_use finish evict maybe_delete_expired
    hashed is_expired lacks_permissions is_exhausted due_refill spend limit_of
    check_rate_limit_governor update_api_key delete_api_key get_api_key_by_hash
    delete_expired_api_keys apply_update insert remove modify retain from_entity
twice_accepted = refl

abbrev view_after : ApiKeyView String
view_after = from_entity libraries (record limited { remaining = some (pos 1) })

first_accepted :
    (validate_api_key libraries default_config "secret" none at_once one_key).0 ≡ valid view_after
unfolding get validate_api_key validate_key use_key store_use finish evict maybe_delete_expired
    hashed is_expired lacks_permissions is_exhausted due_refill spend limit_of
    check_rate_limit_governor update_api_key delete_api_key get_api_key_by_hash
    delete_expired_api_keys apply_update insert remove modify retain from_entity
first_accepted = refl

validate_api_key-IsAcceptable_example :
    (key : ApiKey) × IsAcceptable libraries default_config "secret" none at_once one_key view_after
      key
validate_api_key-IsAcceptable_example =
    validate_api_key-IsAcceptable libraries default_config "secret" none at_once one_key view_after
      one_key-KeysById first_accepted

abbrev disable : UpdateKeyRequest String
disable = record {
  id = "k1";
  name = none;
  enabled = some false;
  remaining = none;
  rate_limit_enabled = none;
  rate_limit_time_window = none;
  rate_limit_max = none;
  refill_interval = none;
  refill_amount = none;
  permissions = none;
  metadata = none;
  expires_in = none;
}

foreign_key-Kept_example :
    (get "k1" (keys_of (delete_key_core (record { id = "k1" }) "u2" one_key).1) ≡ some limited)
    × ((get "k1" (keys_of (update_key_core libraries default_config disable "u2" at_once one_key).1)
          ≡ some limited)
        ⊎ (is_kept libraries.parse_from_rfc3339 10 limited ≡ false))
unfolding get
foreign_key-Kept_example =
    foreign_key-Kept libraries default_config "u2" "k1" limited one_key one_key-KeysById refl
      (λ e. ground (arith, eq_iff "u1" "u2")) (record { id = "k1" }) disable at_once
