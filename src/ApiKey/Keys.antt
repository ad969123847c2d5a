-- ===== src/ApiKey/Keys.antt =====
-- The table of API keys after the steps of a validation.
use better_auth_rs_worker.Prelude.{
  String, ◌≡◌, refl, ap, Bool, true, false, not, Option, some, [], ◌∷◌, eq_iff, eq_refl, arith, ◌⊎◌,
  inl, inr, Bool-cases, Option-cases, find, if◌then◌else◌, ℤ,
}
use better_auth_rs_worker.Error.{ok}
use better_auth_rs_worker.HashMap.{HashMap, get, modify, retain, values}
use better_auth_rs_worker.HashMap.Keys.{UniqueKeys}
use better_auth_rs_worker.Entity.{Instant, ApiKey, UpdateApiKey}
use better_auth_rs_worker.Memory.{MemoryDatabaseAdapter}
use better_auth_rs_worker.Entity.ApiKeys.{apply_update}
use better_auth_rs_worker.Memory.ApiKeyOps.{is_kept, update_api_key, delete_expired_api_keys}
use better_auth_rs_worker.ApiKey.{ApiKeyErrorCode, ApiKeyConfig, Libraries, State, Readings}
use better_auth_rs_worker.ApiKey.Requests.{ApiKeyView, from_entity}
use better_auth_rs_worker.ApiKey.Validate.{
  refuse, evict, is_expired, lacks_permissions, is_exhausted, use_key, validate_key,
  check_rate_limit_governor, maybe_delete_expired, store_use, finish, spending, limit_of,
  Validation, valid,
}

-- Each key is stored once, under its id.
pub record KeysById (keys : HashMap ApiKey) : Type 0 where
  pub unique : UniqueKeys keys
  pub by_id : (k : String) (v : ApiKey) → get k keys ≡ some v → v.id ≡ k

abbrev pub keys_of : {Limiter : Type 0} → State Limiter → HashMap ApiKey
keys_of s = s.database.api_keys

stored_under :
    (p : ApiKey → Bool) (m : HashMap ApiKey) (v : ApiKey)
    → UniqueKeys m
    → find p (values m) ≡ some v
    → (k : String) × (get k m ≡ some v)
unfolding get
stored_under p [] v u e = absurd (ground arith)
stored_under p ((j, w) ∷ m) v u e = elim (Bool-cases (p w)) [
  | inl q ↦ (j, ground (arith, eq_refl j))
  | inr q ↦ let (k, g) = stored_under p m v u.1 (ground arith) in (k, ground (arith, eq_iff j k))
]

pub find_stored :
    (p : ApiKey → Bool) (m : HashMap ApiKey) (v : ApiKey)
    → KeysById m
    → find p (values m) ≡ some v
    → get v.id m ≡ some v
find_stored p m v h e = let (k, g) = stored_under p m v h.unique e in ground (arith, h.by_id k v g)

pub update_api_key_stored :
    (to_rfc3339 : Instant → String) (update : UpdateApiKey) (now : Instant) (key : ApiKey)
    (db : MemoryDatabaseAdapter)
    → get key.id db.api_keys ≡ some key
    → update_api_key to_rfc3339 key.id update now db ≡ (
      ok (apply_update to_rfc3339 update now key),
      record db { api_keys = modify key.id (apply_update to_rfc3339 update now) db.api_keys },
    )
unfolding update_api_key
update_api_key_stored to_rfc3339 update now key db e = rw (update_api_key, e) refl

module _ {Value Limiter : Type 0} (lib : Libraries Value Limiter) (config : ApiKeyConfig) where
  -- The limiter leaves the database as it is.
  pub check_rate_limit_governor_database :
      (key : ApiKey) (now : Instant) (s : State Limiter)
      → (check_rate_limit_governor lib config key now s).1.database ≡ s.database
  unfolding check_rate_limit_governor
  check_rate_limit_governor_database key now s = elim (Option-cases (limit_of lib config key)) [
    | inl e ↦ rw (check_rate_limit_governor, e) refl
    | inr (w, e) ↦ rw (check_rate_limit_governor, e) refl
  ]

  -- A cleanup leaves the table, or keeps what has not expired.
  pub maybe_delete_expired_keys :
      (t : Readings) (s : State Limiter)
      → (keys_of (maybe_delete_expired lib config t s) ≡ keys_of s)
        ⊎ (keys_of (maybe_delete_expired lib config t s)
            ≡ retain (is_kept lib.parse_from_rfc3339 t.cleaned_at) (keys_of s))
  unfolding maybe_delete_expired delete_expired_api_keys
  maybe_delete_expired_keys t s = ground arith

  -- A use of a stored key is written to it, and the key as written is returned.
  pub store_use_lem :
      (key : ApiKey) (spent : Option ℤ × Option String) (t : Readings) (s : State Limiter)
      → get key.id (keys_of s) ≡ some key
      → store_use lib config key spent t s ≡ (
        valid (
            from_entity lib
              (apply_update lib.to_rfc3339 (spending lib config key spent) t.written_at key)),
        maybe_delete_expired lib config t (record s {
          database = record s.database {
            api_keys =
                modify key.id
                  (apply_update lib.to_rfc3339 (spending lib config key spent) t.written_at)
                  (keys_of s);
          };
        }),
      )
  unfolding store_use finish
  store_use_lem key spent t s e = ap (finish lib config t s) (
      update_api_key_stored lib.to_rfc3339 (spending lib config key spent) t.written_at key
        s.database e)

  -- The ways in which the tests before the use of a key end.
  pub data Tested (key : ApiKey) (required : Option Value) (t : Readings) (s : State Limiter)
      : Validation (ApiKeyView Value) × State Limiter → Type 0 where
    refused : (code : ApiKeyErrorCode) → Tested key required t s (refuse code, s)
    evicted :
        (code : ApiKeyErrorCode) → Tested key required t s (refuse code, evict lib config key.id s)
    passed :
        key.enabled ≡ true
        → is_expired lib config t.checked_at key ≡ false
        → lacks_permissions lib config key required ≡ false
        → is_exhausted lib config key ≡ false
        → Tested key required t s (use_key lib config key t s)

  module _ (key : ApiKey) (required : Option Value) (t : Readings) (s : State Limiter) where
    chain-Tested :
        (a b c d : Bool)
        → key.enabled ≡ a
        → is_expired lib config t.checked_at key ≡ b
        → lacks_permissions lib config key required ≡ c
        → is_exhausted lib config key ≡ d
        → Tested key required t s (
            if not a
            then (refuse ApiKeyErrorCode.key_disabled, s)
            else if b
            then (refuse ApiKeyErrorCode.key_expired, evict lib config key.id s)
            else if c
            then (refuse ApiKeyErrorCode.key_not_found, s)
            else if d
            then (refuse ApiKeyErrorCode.usage_exceeded, evict lib config key.id s)
            else use_key lib config key t s)
    chain-Tested false b c d p q r u = refused ApiKeyErrorCode.key_disabled
    chain-Tested true true c d p q r u = evicted ApiKeyErrorCode.key_expired
    chain-Tested true false true d p q r u = refused ApiKeyErrorCode.key_not_found
    chain-Tested true false false true p q r u = evicted ApiKeyErrorCode.usage_exceeded
    chain-Tested true false false false p q r u = passed p q r u

  pub validate_key-Tested :
      (key : ApiKey) (required : Option Value) (t : Readings) (s : State Limiter)
      → Tested key required t s (validate_key lib config key required t s)
  unfolding validate_key
  validate_key-Tested key required t s =
      chain-Tested key required t s key.enabled (is_expired lib config t.checked_at key)
        (lacks_permissions lib config key required) (is_exhausted lib config key) refl refl refl
        refl
