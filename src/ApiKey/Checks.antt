-- ===== src/ApiKey/Checks.antt =====
-- crates/api/src/plugins/api_key/mod.rs: the validation of a request's fields. `len()` is the length
-- in bytes. A number of days is compared exactly, where the program divides in `f64`: the two agree
-- for durations below 2^53 milliseconds.
use better_auth_rs_worker.Prelude.{
  ℕ, ℤ, pos, negsuc, ◌+◌, ◌-◌, ◌*◌, String, len, Bool, not, ◌&&◌, ◌||◌, Option, none, some, ltb,
  ltb_ℤ, if◌then◌else◌, is_some, is_none,
}
use better_auth_rs_worker.Error.{AuthResult, ok, err}
use better_auth_rs_worker.ApiKey.{ApiKeyErrorCode, ApiKeyConfig, Libraries, api_key_error}

-- A length outside the bounds.
abbrev outside : ℕ → ℕ → String → Bool
outside lo hi text = ltb (len text) lo || ltb hi (len text)

-- The milliseconds of a number of days.
abbrev pub days : ℤ → ℤ
days (pos n) = pos (n * 86400000)
days (negsuc n) = negsuc ((n + 1) * 86400000 - 1)

module _ (config : ApiKeyConfig) where
  unfoldable pub validate_prefix : Option String → AuthResult (Unit {0})
  validate_prefix none = ok tt
  validate_prefix (some p) =
      if outside config.min_prefix_length config.max_prefix_length p
      then err (api_key_error ApiKeyErrorCode.invalid_prefix_length)
      else ok tt

  unfoldable pub validate_name : Option String → Bool → AuthResult (Unit {0})
  validate_name none is_create =
      if is_create && config.require_name
      then err (api_key_error ApiKeyErrorCode.name_required)
      else ok tt
  validate_name (some n) is_create =
      if outside config.min_name_length config.max_name_length n
      then err (api_key_error ApiKeyErrorCode.invalid_name_length)
      else ok tt

  unfoldable pub validate_expires_in : Option ℤ → AuthResult (Option ℤ)
  validate_expires_in none = ok config.key_expiration.default_expires_in
  validate_expires_in (some ms) =
      if config.key_expiration.disable_custom_expires_time
      then err (api_key_error ApiKeyErrorCode.key_disabled_expiration)
      else if ltb_ℤ ms (days config.key_expiration.min_expires_in)
      then err (api_key_error ApiKeyErrorCode.expires_in_too_small)
      else if ltb_ℤ (days config.key_expiration.max_expires_in) ms
      then err (api_key_error ApiKeyErrorCode.expires_in_too_large)
      else ok (some ms)

  unfoldable pub validate_metadata :
      {Value Limiter : Type 0} → Libraries Value Limiter → Option Value → AuthResult (Unit {0})
  validate_metadata lib metadata =
      if is_some metadata && not config.enable_metadata
      then err (api_key_error ApiKeyErrorCode.metadata_disabled)
      else elim metadata [
        | none ↦ ok tt
        | some v ↦
            if not (is_some (lib.as_object v)) && not (lib.is_null v)
            then err (api_key_error ApiKeyErrorCode.invalid_metadata_type)
            else ok tt
      ]

unfoldable pub validate_refill : Option ℤ → Option ℤ → AuthResult (Unit {0})
validate_refill refill_interval refill_amount =
    if is_some refill_interval && is_none refill_amount
      || is_none refill_interval && is_some refill_amount
    then err (api_key_error ApiKeyErrorCode.refill_amount_and_interval_required)
    else ok tt
