-- ===== src/ApiKey/Accept.antt =====
-- What an accepted key went through.
use better_auth_rs_worker.Prelude.{
  ℤ, String, ◌≡◌, refl, ap, Bool, true, false, Option, some, ◌==◌, eq_iff, arith, inl, inr,
  Bool-cases, Option-cases, find,
}
use better_auth_rs_worker.Entity.Base.{assign_some}
use better_auth_rs_worker.HashMap.{get, values}
use better_auth_rs_worker.HashMap.Distinct.{find-some}
use better_auth_rs_worker.Entity.{ApiKey}
use better_auth_rs_worker.Entity.ApiKeys.{apply_update}
use better_auth_rs_worker.Memory.ApiKeyOps.{get_api_key_by_hash}
use better_auth_rs_worker.ApiKey.{ApiKeyConfig, Libraries, State, Readings}
use better_auth_rs_worker.ApiKey.Requests.{ApiKeyView, from_entity}
use better_auth_rs_worker.ApiKey.Validate.{
  Validation, valid, validate_api_key, validate_key, use_key, spend, spending, hashed, is_expired,
  lacks_permissions, check_rate_limit_governor,
}
use better_auth_rs_worker.ApiKey.Keys.{
  KeysById, keys_of, find_stored, check_rate_limit_governor_database, store_use_lem, Tested,
  refused, evicted, passed, validate_key-Tested,
}

module _ {Value Limiter : Type 0} (lib : Libraries Value Limiter) (config : ApiKeyConfig) where
  -- A stored key that passes every test of `validate_api_key`, and what the answer shows of it.
  pub record IsAcceptable (raw_key : String) (required : Option Value) (t : Readings)
      (s : State Limiter) (view : ApiKeyView Value) (key : ApiKey) : Type 0 where
    pub stored : get key.id (keys_of s) ≡ some key
    pub hash : key.key_hash ≡ hashed lib config raw_key
    pub enabled : key.enabled ≡ true
    pub live : is_expired lib config t.checked_at key ≡ false
    pub permitted : lacks_permissions lib config key required ≡ false
    pub within_limit : (check_rate_limit_governor lib config key t.limited_at s).0 ≡ true
    pub uses : Option ℤ × Option String
    pub spent : spend lib config t.refilled_at key ≡ some uses
    pub shows : (view.id ≡ key.id) × (view.user_id ≡ key.user_id)
    pub counts : view.remaining ≡ assign_some uses.0 key.remaining

  use_key-valid :
      (key : ApiKey) (t : Readings) (s : State Limiter) (view : ApiKeyView Value)
      → get key.id (keys_of s) ≡ some key
      → (use_key lib config key t s).0 ≡ valid view
      → (spent : Option ℤ × Option String) × (spend lib config t.refilled_at key ≡ some spent)
        × ((check_rate_limit_governor lib config key t.limited_at s).0 ≡ true)
        × (view.id ≡ key.id)
        × (view.user_id ≡ key.user_id)
        × (view.remaining ≡ assign_some spent.0 key.remaining)
  unfolding use_key from_entity apply_update
  use_key-valid key t s view g e = elim (Option-cases (spend lib config t.refilled_at key)) [
    | inl p ↦ absurd (ground arith)
    | inr (spent, p) ↦
        let s' : State Limiter = (check_rate_limit_governor lib config key t.limited_at s).1 in
        let same : keys_of s' ≡ keys_of s =
          ap (λ db. db.api_keys)
            (check_rate_limit_governor_database lib config key t.limited_at s) in
        let g' : get key.id (keys_of s') ≡ some key = rw same g in
        elim (Bool-cases (check_rate_limit_governor lib config key t.limited_at s).0) [
          | inr q ↦ absurd (ground arith)
          | inl q ↦
              let r : view
                  ≡ from_entity lib (
                      apply_update lib.to_rfc3339 (spending lib config key spent) t.written_at
                        key) =
                ground (arith, store_use_lem lib config key spent t s' g') in
              (spent, p, q, rw r refl, rw r refl, rw r refl)
        ]
  ]

  Tested-valid :
      (raw_key : String) (key : ApiKey) (required : Option Value) (t : Readings) (s : State Limiter)
      (view : ApiKeyView Value) (r : Validation (ApiKeyView Value) × State Limiter)
      → get key.id (keys_of s) ≡ some key
      → key.key_hash ≡ hashed lib config raw_key
      → Tested lib config key required t s r
      → r.0 ≡ valid view
      → IsAcceptable raw_key required t s view key
  Tested-valid raw_key key required t s view r g h (refused code) e = absurd (ground arith)
  Tested-valid raw_key key required t s view r g h (evicted code) e = absurd (ground arith)
  Tested-valid raw_key key required t s view r g h (passed enabled live permitted d) e =
      let (spent, p, q, i, u, c) = use_key-valid key t s view g e in
      record {
        stored = g;
        hash = h;
        enabled = enabled;
        live = live;
        permitted = permitted;
        within_limit = q;
        uses = spent;
        spent = p;
        shows = (i, u);
        counts = c;
      }

  -- If API keys are stored once, under their ids, and a validation accepts a text, then a stored
  -- key has the hash of the text, is enabled, is not past its expiry, has the required
  -- permissions, passes its rate limiter, and has a use left. The answer shows its id, its user
  -- and, where its uses are counted, the uses left after this one.
  pub validate_api_key-IsAcceptable :
      (raw_key : String) (required : Option Value) (t : Readings) (s : State Limiter)
      (view : ApiKeyView Value)
      → KeysById (keys_of s)
      → (validate_api_key lib config raw_key required t s).0 ≡ valid view
      → (key : ApiKey) × IsAcceptable raw_key required t s view key
  unfolding validate_api_key get_api_key_by_hash
  validate_api_key-IsAcceptable raw_key required t s view h e =
      let of_hash : ApiKey → Bool = λ x. x.key_hash == hashed lib config raw_key in
      elim (Option-cases (find of_hash (values (keys_of s)))) [
        | inl f ↦ absurd (ground arith)
        | inr (key, f) ↦ (
          key,
          Tested-valid raw_key key required t s view (validate_key lib config key required t s)
              (find_stored of_hash (keys_of s) key h f)
              ((eq_iff key.key_hash (hashed lib config raw_key)).0
                (find-some of_hash (values (keys_of s)) key f))
              (validate_key-Tested lib config key required t s) (ground arith),
        )
      ]
