-- ===== src/ApiKey/Handlers.antt =====
-- crates/api/src/plugins/api_key/handlers.rs: the operations behind the routes, and of mod.rs the
-- generation of a key; `get_owned_api_key` and `expires_in_to_at` of
-- plugins/helpers.rs.
use better_auth_rs_worker.Prelude.{
  ℕ, ℤ, String, concat, Bool, true, false, not, ◌||◌, Option, none, some, List, [], map, ◌==◌,
  if◌then◌else◌, ltb, is_some, get_or, or_else,
}
use Prim.Native.String.{slice}
use better_auth_rs_worker.Error.{AuthResult, ok, err, bad_request, not_found}
use better_auth_rs_worker.Action.{Action, pure, raise, lift, ◌>>=◌}
use better_auth_rs_worker.HashMap.{remove}
use better_auth_rs_worker.Entity.{Instant, ApiKey, CreateApiKey, UpdateApiKey}
use better_auth_rs_worker.Memory.ApiKeyOps.{
  create_api_key, get_api_key_by_id, list_api_keys_by_user, update_api_key, delete_api_key,
  delete_expired_api_keys,
}
use better_auth_rs_worker.ApiKey.{ApiKeyConfig, Libraries, State, Readings, as_str, on_database}
use better_auth_rs_worker.ApiKey.Requests.{
  CreateKeyRequest, UpdateKeyRequest, DeleteKeyRequest, VerifyKeyRequest, ApiKeyView,
  CreateKeyResponse, VerifyKeyResponse, from_entity,
}
use better_auth_rs_worker.ApiKey.Checks.{
  validate_prefix, validate_name, validate_expires_in, validate_metadata, validate_refill,
}
use better_auth_rs_worker.ApiKey.Validate.{
  valid, invalid, hashed, maybe_delete_expired, validate_api_key,
}

module _ {Limiter : Type 0} where
  -- `helpers::get_owned_api_key`
  unfoldable pub get_owned_api_key : String → String → Action (State Limiter) ApiKey
  get_owned_api_key key_id user_id = do
    found ← on_database (get_api_key_by_id key_id)
    elim found [
      | none ↦ raise (not_found "API key not found")
      | some api_key ↦
          if not (api_key.user_id == user_id)
          then raise (not_found "API key not found")
          else pure api_key
    ]

  -- The limiter of a key is dropped.
  abbrev pub drop_limiter : Bool → String → Action (State Limiter) Unit
  drop_limiter applies id s =
      (ok tt, if applies then record s { rate_limiters = remove id s.rate_limiters } else s)

  unfoldable pub delete_key_core : DeleteKeyRequest → String → Action (State Limiter) Unit
  delete_key_core body user_id = do
    _ ← get_owned_api_key body.id user_id
    _ ← on_database (delete_api_key body.id)
    drop_limiter true body.id

module _ {Value Limiter : Type 0} (lib : Libraries Value Limiter) (config : ApiKeyConfig) where
  -- `generate_key`, from the encoding of the bytes drawn (ASCII): the key, its hash and its start.
  unfoldable pub generate_key : Option String → String → String × String × String
  generate_key custom_prefix raw =
      let full_key : String = concat (get_or (or_else custom_prefix config.prefix) "") raw in
      (full_key, hashed lib config full_key, slice raw 0 config.starting_characters_length)

  -- `helpers::expires_in_to_at`
  unfoldable pub expires_in_to_at : Option ℤ → Instant → AuthResult (Option String)
  expires_in_to_at none now = ok none
  expires_in_to_at (some ms) now = elim (lib.add_milliseconds now ms) [
    | none ↦ err (bad_request "expiresIn is out of range")
    | some dt ↦ ok (some (lib.to_rfc3339 dt))
  ]

  -- The cleanup, as an action that cannot fail.
  abbrev pub clean : Readings → Action (State Limiter) Unit
  clean t s = (ok tt, maybe_delete_expired lib config t s)

  -- `serde_json::to_string(v).unwrap_or_default()`, where there is a value
  abbrev printed : Option Value → Option String
  printed none = none
  printed (some v) = some (get_or (lib.value_to_string v) "")

  abbrev creation : CreateKeyRequest Value → String → String → String → Option String → CreateApiKey
  creation body user_id hash start expires_at = record {
    user_id = user_id;
    name = body.name;
    prefix = or_else body.prefix config.prefix;
    key_hash = hash;
    start = if config.store_starting_characters then some start else none;
    expires_at = expires_at;
    remaining = or_else body.remaining config.default_remaining;
    rate_limit_enabled = get_or body.rate_limit_enabled false;
    rate_limit_time_window = body.rate_limit_time_window;
    rate_limit_max = body.rate_limit_max;
    refill_interval = body.refill_interval;
    refill_amount = body.refill_amount;
    permissions = printed body.permissions;
    metadata = printed body.metadata;
    enabled = true;
  }

  unfoldable pub create_key_core :
      CreateKeyRequest Value
      → String
      → String
      → AuthResult String
      → Readings
      → Action (State Limiter) (CreateKeyResponse Value)
  create_key_core body user_id raw generated t = do
    _ ← lift (validate_prefix config body.prefix)
    _ ← lift (validate_name config body.name true)
    _ ← lift (validate_metadata config lib body.metadata)
    _ ← lift (validate_refill body.refill_interval body.refill_amount)
    effective_expires_in ← lift (validate_expires_in config body.expires_in)
    let (full_key, hash, start) = generate_key body.prefix raw
    expires_at ← lift (expires_in_to_at effective_expires_in t.checked_at)
    api_key ← on_database (
        create_api_key lib.to_rfc3339 (creation body user_id hash start expires_at) generated
          t.written_at)
    _ ← clean t
    pure (record { key = full_key; api_key = from_entity lib api_key })

  unfoldable pub get_key_core :
      String → String → Readings → Action (State Limiter) (ApiKeyView Value)
  get_key_core id user_id t = do
    api_key ← get_owned_api_key id user_id
    _ ← clean t
    pure (from_entity lib api_key)

  unfoldable pub list_keys_core :
      String → Readings → Action (State Limiter) (List (ApiKeyView Value))
  list_keys_core user_id t = do
    keys ← on_database (list_api_keys_by_user user_id)
    _ ← clean t
    pure (map (from_entity lib) keys)

  -- The new expiry, where the request has one.
  abbrev pub new_expiry : Option ℤ → Instant → AuthResult (Option (Option String))
  new_expiry none now = ok none
  new_expiry (some ms) now = elim (validate_expires_in config (some ms)) [
    | err e ↦ err e
    | ok effective_ms ↦ elim (expires_in_to_at effective_ms now) [
      | err e ↦ err e
      | ok none ↦ ok none
      | ok (some at) ↦ ok (some (some at))
    ]
  ]

  abbrev pub change : UpdateKeyRequest Value → Option (Option String) → UpdateApiKey
  change body expires_at = record {
    name = body.name;
    enabled = body.enabled;
    remaining = body.remaining;
    rate_limit_enabled = body.rate_limit_enabled;
    rate_limit_time_window = body.rate_limit_time_window;
    rate_limit_max = body.rate_limit_max;
    refill_interval = body.refill_interval;
    refill_amount = body.refill_amount;
    permissions = printed body.permissions;
    metadata = printed body.metadata;
    expires_at = expires_at;
    last_request = none;
    request_count = none;
    last_refill_at = none;
  }

  -- `update_key_core` from the write on.
  unfoldable pub write_update :
      UpdateKeyRequest Value
      → Option (Option String)
      → Readings
      → Action (State Limiter) (ApiKeyView Value)
  write_update body expires_at t = do
    updated ←
        on_database (update_api_key lib.to_rfc3339 body.id (change body expires_at) t.written_at)
    _ ←
        drop_limiter
          (is_some body.rate_limit_time_window
            || is_some body.rate_limit_max
            || is_some body.rate_limit_enabled)
          body.id
    _ ← clean t
    pure (from_entity lib updated)

  unfoldable pub update_key_core :
      UpdateKeyRequest Value → String → Readings → Action (State Limiter) (ApiKeyView Value)
  update_key_core body user_id t = do
    _ ← lift (validate_name config body.name false)
    _ ← lift (validate_metadata config lib body.metadata)
    _ ← lift (validate_refill body.refill_interval body.refill_amount)
    _ ← get_owned_api_key body.id user_id
    expires_at ← lift (new_expiry body.expires_in t.checked_at)
    write_update body expires_at t

  unfoldable pub verify_key_core :
      VerifyKeyRequest Value → Readings → Action (State Limiter) (VerifyKeyResponse Value)
  verify_key_core body t s =
      let (r, s') = validate_api_key lib config body.key body.permissions t s in
      (
        ok (elim r [
          | valid view ↦ record { valid = true; error = none; key = some view }
          | invalid e ↦ record {
            valid = false;
            error = some (record { message = e.message; code = as_str e.code });
            key = none;
          }
        ]),
        s',
      )

  -- The limiters are dropped where keys were deleted.
  abbrev clear : ℕ → Action (State Limiter) Unit
  clear count s = (ok tt, if ltb 0 count then record s { rate_limiters = [] } else s)

  -- The number of keys deleted.
  unfoldable pub delete_all_expired_core : Instant → Action (State Limiter) ℕ
  delete_all_expired_core now = do
    count ← on_database (delete_expired_api_keys lib.parse_from_rfc3339 now)
    _ ← clear count
    pure count
