-- ===== src/ApiKey/Ownership.antt =====
-- Which keys the operations of a user change.
use better_auth_rs_worker.Prelude.{
  String, ◌≡◌, ◌≢◌, ◌↔◌, Bool, false, Option, some, ◌==◌, ◌||◌, is_some, eq_iff, arith, ◌⊎◌, inl,
  inr, Bool-cases, Option-cases,
}
use better_auth_rs_worker.Error.{ok, AuthResult-cases}
use better_auth_rs_worker.Action.Keeps.{and_then-keeps}
use better_auth_rs_worker.HashMap.{get, remove}
use better_auth_rs_worker.HashMap.Laws.{get-remove, get-modify}
use better_auth_rs_worker.Entity.{Instant, ApiKey, UpdateApiKey}
use better_auth_rs_worker.Memory.ApiKeyOps.{
  get_api_key_by_id, update_api_key, delete_api_key, is_kept,
}
use better_auth_rs_worker.ApiKey.{ApiKeyConfig, Libraries, State, Readings}
use better_auth_rs_worker.ApiKey.Requests.{DeleteKeyRequest, UpdateKeyRequest}
use better_auth_rs_worker.ApiKey.Handlers.{
  get_owned_api_key, delete_key_core, write_update, update_key_core, change, new_expiry,
}
use better_auth_rs_worker.ApiKey.Checks.{validate_name, validate_metadata, validate_refill}
use better_auth_rs_worker.ApiKey.Validate.{maybe_delete_expired}
use better_auth_rs_worker.ApiKey.Keys.{KeysById, keys_of, maybe_delete_expired_keys}
use better_auth_rs_worker.ApiKey.Metered.{modify-KeysById}
use better_auth_rs_worker.HashMap.Keys.{get-retain}
use better_auth_rs_worker.Entity.ApiKeys.{apply_update}

module _ {Value Limiter : Type 0} (lib : Libraries Value Limiter) (config : ApiKeyConfig) where
  -- The owner is found exactly where the key is stored for the user.
  pub get_owned_api_key_lem :
      (id user_id : String) (s : State Limiter)
      → ((get_owned_api_key id user_id s).1 ≡ s)
        × ((key : ApiKey)
            → ((get_owned_api_key id user_id s).0 ≡ ok key)
              ↔ ((get id (keys_of s) ≡ some key) × (key.user_id ≡ user_id)))
  unfolding get_owned_api_key get_api_key_by_id
  get_owned_api_key_lem id user_id s = elim (Option-cases (get id (keys_of s))) [
    | inl e ↦ (ground arith, λ key. ground arith)
    | inr (x, e) ↦
        (ground (arith, eq_iff x.user_id user_id), λ key. ground (arith, eq_iff x.user_id user_id))
  ]

  module _ (user_id j : String) (key : ApiKey) (s : State Limiter) (h : KeysById (keys_of s))
      (stored : get j (keys_of s) ≡ some key) (foreign : key.user_id ≢ user_id) where
    -- A key that the user owns is stored under another id.
    owned_elsewhere :
        (id : String) (x : ApiKey) → (get_owned_api_key id user_id s).0 ≡ ok x → (id == j) ≡ false
    owned_elsewhere id x e =
        let (g, o) = ((get_owned_api_key_lem id user_id s).1 x).0 e in
        elim (Bool-cases (id == j)) [
          | inr q ↦ q
          | inl q ↦ absurd (foreign (ground (arith, eq_iff id j)))
        ]

    delete_key_core-others :
        (body : DeleteKeyRequest) → get j (keys_of (delete_key_core body user_id s).1) ≡ some key
    unfolding delete_key_core delete_api_key
    delete_key_core-others body =
        let (same, _) = get_owned_api_key_lem body.id user_id s in
        elim (AuthResult-cases (get_owned_api_key body.id user_id s).0) [
          | inr (e, q) ↦ ground (arith, same)
          | inl (x, q) ↦
              ground (arith, same, owned_elsewhere body.id x q, get-remove body.id j (keys_of s))
        ]

    -- The table that an update leaves: the old one or, where the user owns the key, the changed one
    -- and possibly a cleanup.
    cleaned-others :
        (t : Readings) (s' : State Limiter)
        → KeysById (keys_of s')
        → get j (keys_of s') ≡ some key
        → (get j (keys_of (maybe_delete_expired lib config t s')) ≡ some key)
          ⊎ (is_kept lib.parse_from_rfc3339 t.cleaned_at key ≡ false)
    cleaned-others t s' h' e = elim (maybe_delete_expired_keys lib config t s') [
      | inl q ↦ inl (rw q e)
      | inr q ↦
          let p : ApiKey → Bool = is_kept lib.parse_from_rfc3339 t.cleaned_at in
          elim (Bool-cases (p key)) [
            | inr k ↦ inr k
            | inl k ↦ inl (rw q (ground (arith, get-retain p j (keys_of s') h'.unique)))
          ]
    ]

    -- What holds of the state after an update.
    abbrev pub Kept : Readings → State Limiter → Type 0
    Kept t s' =
        (get j (keys_of s') ≡ some key) ⊎ (is_kept lib.parse_from_rfc3339 t.cleaned_at key ≡ false)

    update_api_key-others :
        (id : String) (update : UpdateApiKey) (now : Instant)
        → (id == j) ≡ false
        → let keys = (update_api_key lib.to_rfc3339 id update now s.database).1.api_keys in
          KeysById keys × (get j keys ≡ some key)
    unfolding update_api_key
    update_api_key-others id update now q = elim (Option-cases (get id (keys_of s))) [
      | inl e ↦ rw (update_api_key, e) (h, stored)
      | inr (x, e) ↦
          rw (update_api_key, e)
            (
              modify-KeysById lib.to_rfc3339 update now id (keys_of s) h,
              ground (arith, get-modify id j (apply_update lib.to_rfc3339 update now) (keys_of s)),
            )
    ]

    write_update-others :
        (body : UpdateKeyRequest Value) (expires_at : Option (Option String)) (t : Readings)
        → (body.id == j) ≡ false
        → Kept t (write_update lib config body expires_at t s).1
    unfolding write_update
    write_update-others body expires_at t q =
        let update : UpdateApiKey = change lib config body expires_at in
        let (r, db) = update_api_key lib.to_rfc3339 body.id update t.written_at s.database in
        let (keyed, found) = update_api_key-others body.id update t.written_at q in
        let drops : Bool =
          is_some body.rate_limit_time_window
          || is_some body.rate_limit_max
          || is_some body.rate_limit_enabled in
        let written : State Limiter = record s { database = db } in
        and_then-keeps (Kept t) r _ written (inl found) λ updated _. elim (Bool-cases drops) [
          | inl d ↦ rw d (
              cleaned-others t (record written { rate_limiters = remove body.id s.rate_limiters })
                keyed found)
          | inr d ↦ rw d (cleaned-others t written keyed found)
        ]

    update_key_core-others :
        (body : UpdateKeyRequest Value) (t : Readings)
        → Kept t (update_key_core lib config body user_id t s).1
    unfolding update_key_core
    update_key_core-others body t =
        let (same, owned) = get_owned_api_key_lem body.id user_id s in
        and_then-keeps (Kept t) (validate_name config body.name false) _ s (inl stored) λ _ _.
          and_then-keeps (Kept t) (validate_metadata config lib body.metadata) _ s (inl stored)
            λ _ _.
              and_then-keeps (Kept t) (validate_refill body.refill_interval body.refill_amount) _ s
                (inl stored)
                λ _ _.
                  and_then-keeps (Kept t) (get_owned_api_key body.id user_id s).0 _
                    (get_owned_api_key body.id user_id s).1 (rw same (inl stored))
                    λ x e. rw same (
                      and_then-keeps (Kept t) (new_expiry lib config body.expires_in t.checked_at) _
                        s (inl stored)
                        λ expires_at _.
                          write_update-others body expires_at t (owned_elsewhere body.id x e))

    -- If API keys are stored once, under their ids, and one belongs to another user, then a call
    -- of the user to delete a key leaves it as it is, and so does a call to update one unless the
    -- key has expired at the reading of the clock for the cleanup. Calls that fail are included.
    pub foreign_key-Kept :
        (deleted : DeleteKeyRequest) (updated : UpdateKeyRequest Value) (t : Readings)
        → (get j (keys_of (delete_key_core deleted user_id s).1) ≡ some key)
          × Kept t (update_key_core lib config updated user_id t s).1
    foreign_key-Kept deleted updated t =
        (delete_key_core-others deleted, update_key_core-others updated t)
