-- ===== src/ApiKey/Validate.antt =====
-- crates/api/src/plugins/api_key/mod.rs, `validate_api_key` with the rate limiter and the cleanup
-- that it calls, over the in-memory store.
use better_auth_rs_worker.Prelude.{
  ℕ, ℤ, pos, sub_ℕ, pred_ℤ, ltb_ℤ, leb_ℤ, pos_part, ◌-◌, ◌/◌, ◌%◌, ◌^◌, String, Bool, true, false,
  not, ◌&&◌, ◌||◌, Option, none, some, ◌==◌, if◌then◌else◌, ltb, leb, is_some, is_none, get_or,
  and_then_some,
}
use better_auth_rs_worker.Error.{AuthResult, ok, err}
use better_auth_rs_worker.HashMap.{get, insert, remove}
use better_auth_rs_worker.Entity.{Instant, ApiKey, UpdateApiKey}
use better_auth_rs_worker.Entity.ApiKeys.{no_update}
use better_auth_rs_worker.Memory.{MemoryDatabaseAdapter}
use better_auth_rs_worker.Memory.ApiKeyOps.{
  get_api_key_by_hash, update_api_key, delete_api_key, delete_expired_api_keys,
}
use better_auth_rs_worker.ApiKey.{
  ApiKeyErrorCode, ApiKeyConfig, Libraries, State, Readings, message,
}
use better_auth_rs_worker.ApiKey.Requests.{ApiKeyView, from_entity}
use better_auth_rs_worker.ApiKey.Permissions.{check_permissions}

pub record ApiKeyValidationError : Type 0 where
  pub code : ApiKeyErrorCode
  pub message : String

-- `Result<_, ApiKeyValidationError>`
pub data Validation (A : Type 0) : Type 0 where
  valid : A → Validation A
  invalid : ApiKeyValidationError → Validation A

-- `Err(ApiKeyValidationError::new(code))`
abbrev pub refuse : {A : Type 0} → ApiKeyErrorCode → Validation A
refuse code = invalid (record { code = code; message = message code })

-- Whole milliseconds from `last` to `now`, towards zero: `num_milliseconds`.
abbrev pub elapsed_ms : Instant → Instant → ℤ
elapsed_ms now last = sub_ℕ ((now - last) / 1000000) ((last - now) / 1000000)

-- Equality of optional texts.
abbrev pub same_time : Option String → Option String → Bool
same_time none none = true
same_time (some a) (some b) = a == b
same_time _ _ = false

-- `n as u32` for a positive `i64`, and one in place of zero.
abbrev burst_of : ℕ → ℕ
burst_of n = let b : ℕ = n % 2 ^ 32 in if leb b 0 then 1 else b

-- `max(1)` of the period.
abbrev period_of : ℕ → ℕ → ℕ
period_of time_window max_requests =
    let p : ℕ = time_window / max_requests in if leb p 1 then 1 else p

module _ {Value Limiter : Type 0} (lib : Libraries Value Limiter) (config : ApiKeyConfig) where
  unfoldable pub hashed : String → String
  hashed raw_key = if config.disable_key_hashing then raw_key else lib.sha256_base64url raw_key

  -- The test for an expiry that has passed.
  unfoldable pub is_expired : Instant → ApiKey → Bool
  is_expired now key = elim (and_then_some key.expires_at lib.parse_from_rfc3339) [
    | none ↦ false
    | some expires_at ↦ ltb expires_at now
  ]

  unfoldable pub lacks_permissions : ApiKey → Option Value → Bool
  lacks_permissions key none = false
  lacks_permissions key (some required) =
      let key_perms : String = get_or key.permissions "" in
      (key_perms == "") || not (check_permissions lib key_perms required)

  -- No uses are left and none will be.
  unfoldable pub is_exhausted : ApiKey → Bool
  is_exhausted key = elim key.remaining [
    | none ↦ false
    | some r ↦ leb_ℤ r (pos 0) && leb_ℤ (pos 0) r && is_none key.refill_amount
  ]

  -- When the uses were filled up last, or the key was created.
  abbrev last_time : ApiKey → Option Instant
  last_time key = lib.parse_from_rfc3339 (get_or key.last_refill_at key.created_at)

  -- The uses of a full key where a refill is due.
  unfoldable pub due_refill : Instant → ApiKey → Option ℤ
  due_refill now key = elim key.refill_interval [
    | none ↦ none
    | some interval ↦ elim key.refill_amount [
      | none ↦ none
      | some amount ↦ elim (last_time key) [
        | none ↦ none
        | some last ↦ if ltb_ℤ interval (elapsed_ms now last) then some amount else none
      ]
    ]
  ]

  -- The counter and the time of the last refill to write; `none` where no use is left.
  unfoldable pub spend : Instant → ApiKey → Option (Option ℤ × Option String)
  spend now key = elim key.remaining [
    | none ↦ some (none, key.last_refill_at)
    | some remaining ↦
        let refilled : Option ℤ = due_refill now key in
        let current : ℤ = get_or refilled remaining in
        if leb_ℤ current (pos 0)
        then none
        else some (
          some (pred_ℤ current),
          if is_some refilled then some (lib.to_rfc3339 now) else key.last_refill_at,
        )
  ]

  -- Whether the limiter is asked, with the window and the maximum.
  unfoldable pub limit_of : ApiKey → Option (ℕ × ℕ)
  limit_of key =
      let explicit : Bool = is_some key.rate_limit_time_window || is_some key.rate_limit_max in
      let time_window : ℤ = get_or key.rate_limit_time_window config.rate_limit.time_window in
      let max_requests : ℤ = get_or key.rate_limit_max config.rate_limit.max_requests in
      if not key.rate_limit_enabled && (explicit || not config.rate_limit.enabled)
      then none
      else if leb_ℤ time_window (pos 0) || leb_ℤ max_requests (pos 0)
      then none
      else some (pos_part time_window, pos_part max_requests)

  -- `check_rate_limit_governor`: whether the request may pass, and the limiters after it.
  unfoldable pub check_rate_limit_governor : ApiKey → Instant → State Limiter → Bool × State Limiter
  check_rate_limit_governor key now s = elim (limit_of key) [
    | none ↦ (true, s)
    | some (time_window, max_requests) ↦
        let limiter : Limiter =
          get_or (get key.id s.rate_limiters)
            (lib.new_limiter (period_of time_window max_requests) (burst_of max_requests) now) in
        let (passes, limiter') = lib.check_limiter limiter now in
        (passes, record s { rate_limiters = insert key.id limiter' s.rate_limiters })
  ]

  -- `maybe_delete_expired`, at most once in ten seconds.
  unfoldable pub maybe_delete_expired : Readings → State Limiter → State Limiter
  maybe_delete_expired t s =
      if elim s.last_expired_check [
        | none ↦ false
        | some prev ↦ ltb ((t.ticked_at - prev) / 1000000000) 10
      ]
      then s
      else record s {
        last_expired_check = some t.ticked_at;
        database = (delete_expired_api_keys lib.parse_from_rfc3339 t.cleaned_at s.database).1;
      }

  -- The key is deleted, with its limiter.
  unfoldable pub evict : String → State Limiter → State Limiter
  evict id s = record s {
    database = (delete_api_key id s.database).1;
    rate_limiters = remove id s.rate_limiters;
  }

  -- The update that writes what was spent.
  abbrev pub spending : ApiKey → Option ℤ × Option String → UpdateApiKey
  spending key (remaining, last_refill_at) = record no_update {
    remaining = remaining;
    last_refill_at =
        if same_time last_refill_at key.last_refill_at then none else some last_refill_at;
  }

  -- `validate_api_key` after the update.
  unfoldable pub finish :
      Readings
      → State Limiter
      → AuthResult ApiKey × MemoryDatabaseAdapter
      → Validation (ApiKeyView Value) × State Limiter
  finish t s (err _, db) =
      (refuse ApiKeyErrorCode.failed_to_update_api_key, record s { database = db })
  finish t s (ok updated, db) =
      (valid (from_entity lib updated), maybe_delete_expired t (record s { database = db }))

  -- `validate_api_key` from the update on.
  unfoldable pub store_use :
      ApiKey
      → Option ℤ × Option String
      → Readings
      → State Limiter
      → Validation (ApiKeyView Value) × State Limiter
  store_use key spent t s =
      finish t s (update_api_key lib.to_rfc3339 key.id (spending key spent) t.written_at s.database)

  -- `validate_api_key` from the use of the key on.
  unfoldable pub use_key :
      ApiKey → Readings → State Limiter → Validation (ApiKeyView Value) × State Limiter
  use_key key t s = elim (spend t.refilled_at key) [
    | none ↦ (refuse ApiKeyErrorCode.usage_exceeded, s)
    | some spent ↦
        let (passes, s') = check_rate_limit_governor key t.limited_at s in
        if passes then store_use key spent t s' else (refuse ApiKeyErrorCode.rate_limited, s')
  ]

  -- `validate_api_key` once the key is found.
  unfoldable pub validate_key :
      ApiKey
      → Option Value
      → Readings
      → State Limiter
      → Validation (ApiKeyView Value) × State Limiter
  validate_key key required_permissions t s =
      if not key.enabled
      then (refuse ApiKeyErrorCode.key_disabled, s)
      else if is_expired t.checked_at key
      then (refuse ApiKeyErrorCode.key_expired, evict key.id s)
      else if lacks_permissions key required_permissions
      then (refuse ApiKeyErrorCode.key_not_found, s)
      else if is_exhausted key
      then (refuse ApiKeyErrorCode.usage_exceeded, evict key.id s)
      else use_key key t s

  unfoldable pub validate_api_key :
      String
      → Option Value
      → Readings
      → State Limiter
      → Validation (ApiKeyView Value) × State Limiter
  validate_api_key raw_key required_permissions t s =
      elim (get_api_key_by_hash (hashed raw_key) s.database).0 [
        | err _ ↦ (refuse ApiKeyErrorCode.invalid_api_key, s)
        | ok none ↦ (refuse ApiKeyErrorCode.invalid_api_key, s)
        | ok (some key) ↦ validate_key key required_permissions t s
      ]
