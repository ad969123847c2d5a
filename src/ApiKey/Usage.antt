-- ===== src/ApiKey/Usage.antt =====
-- How often a key with a limited number of uses is accepted.
use better_auth_rs_worker.Prelude.{
  ℕ, ◌+◌, ◌-◌, ◌≤◌, ℤ, pos, negsuc, String, ◌≡◌, refl, ap, Bool, true, Option, none, some, List, [],
  ◌∷◌, ◌==◌, eq_iff, arith, if◌then◌else◌, inl, inr, Bool-cases, Option-cases, find,
}
use better_auth_rs_worker.HashMap.{get, modify, values}
use better_auth_rs_worker.HashMap.Laws.{get-modify}
use better_auth_rs_worker.Entity.{Instant, ApiKey}
use better_auth_rs_worker.Entity.ApiKeys.{apply_update}
use better_auth_rs_worker.Memory.ApiKeyOps.{is_kept, get_api_key_by_hash, delete_api_key}
use better_auth_rs_worker.ApiKey.{ApiKeyConfig, Libraries, State, Readings}
use better_auth_rs_worker.ApiKey.Requests.{ApiKeyView, from_entity}
use better_auth_rs_worker.ApiKey.Validate.{
  Validation, valid, invalid, validate_api_key, validate_key, use_key, store_use, spend, spending,
  due_refill, evict, hashed, check_rate_limit_governor, maybe_delete_expired,
}
use better_auth_rs_worker.ApiKey.Keys.{
  KeysById, keys_of, find_stored, check_rate_limit_governor_database, maybe_delete_expired_keys,
  store_use_lem, Tested, refused, evicted, passed, validate_key-Tested,
}
use better_auth_rs_worker.ApiKey.Metered.{
  is_metered, left_of, HasAtMost, remove-HasAtMost, retain-HasAtMost, remove-KeysById,
  retain-KeysById, modify-KeysById,
}

module _ {Value Limiter : Type 0} (lib : Libraries Value Limiter) (config : ApiKeyConfig) where
  -- One for an acceptance of the key, zero for anything else.
  abbrev pub used : String → Validation (ApiKeyView Value) → ℕ
  used k (invalid e) = 0
  used k (valid view) = if view.id == k then 1 else 0

  due_refill-none :
      (now : Instant) (key : ApiKey) → is_metered key ≡ true → due_refill lib config now key ≡ none
  unfolding due_refill
  due_refill-none now key m = elim (Option-cases key.refill_interval) [
    | inl e ↦ rw (due_refill, e) refl
    | inr (i, e) ↦ elim (Option-cases key.refill_amount) [
      | inl f ↦ rw (due_refill, e, f) refl
      | inr (a, f) ↦ absurd (ground arith)
    ]
  ]

  -- A metered key is spent only while a use is left, and then it has one less.
  spend_metered :
      (key : ApiKey) (now written : Instant) (spent : Option ℤ × Option String)
      → is_metered key ≡ true
      → spend lib config now key ≡ some spent
      → left_of key
        ≡ left_of (apply_update lib.to_rfc3339 (spending lib config key spent) written key) + 1
  unfolding spend apply_update
  spend_metered key now written spent m e = elim (Option-cases key.remaining) [
    | inl p ↦ absurd (ground arith)
    | inr (pos r, p) ↦ ground (arith, due_refill-none now key m)
    | inr (negsuc r, p) ↦ ground (arith, due_refill-none now key m)
  ]

  still_metered :
      (key : ApiKey) (written : Instant) (spent : Option ℤ × Option String)
      → is_metered key ≡ true
      → is_metered (apply_update lib.to_rfc3339 (spending lib config key spent) written key) ≡ true
  unfolding apply_update
  still_metered key written spent m = elim (Option-cases spent.0) [
    | inl p ↦ ground arith
    | inr (r, p) ↦ ground arith
  ]

  module _ (k : String) where
    -- What holds between the calls.
    record Meter (n : ℕ) (s : State Limiter) : Type 0 where
      keyed : KeysById (keys_of s)
      counted : HasAtMost k n (keys_of s)

    -- What a call accepts is taken from the uses left.
    abbrev Counts : ℕ → Validation (ApiKeyView Value) × State Limiter → Type 0
    Counts n (r, s) = (left : ℕ) × (used k r + left ≤ n) × Meter left s

    clean-Meter :
        (n : ℕ) (t : Readings) (s : State Limiter)
        → Meter n s
        → Meter n (maybe_delete_expired lib config t s)
    clean-Meter n t s m = elim (maybe_delete_expired_keys lib config t s) [
      | inl e ↦ record { keyed = rw e m.keyed; counted = rw e m.counted }
      | inr e ↦
          let p : ApiKey → Bool = is_kept lib.parse_from_rfc3339 t.cleaned_at in
          record {
            keyed = rw e (retain-KeysById p (keys_of s) m.keyed);
            counted = rw e (retain-HasAtMost k n (keys_of s) m.keyed m.counted p);
          }
    ]

    evict-Meter :
        (n : ℕ) (j : String) (s : State Limiter) → Meter n s → Meter n (evict lib config j s)
    unfolding evict delete_api_key
    evict-Meter n j s m = record {
      keyed = remove-KeysById j (keys_of s) m.keyed;
      counted = remove-HasAtMost k n (keys_of s) m.keyed m.counted j;
    }

    -- The table after an accepted use.
    spend-HasAtMost :
        (n : ℕ) (key : ApiKey) (t : Readings) (s : State Limiter) (spent : Option ℤ × Option String)
        → Meter n s
        → get key.id (keys_of s) ≡ some key
        → spend lib config t.refilled_at key ≡ some spent
        → ((if key.id == k then 1 else 0) ≤ n)
          × HasAtMost k (n - (if key.id == k then 1 else 0)) (
              modify key.id
                (apply_update lib.to_rfc3339 (spending lib config key spent) t.written_at)
                (keys_of s))
    spend-HasAtMost n key t s spent m g e =
        let f : ApiKey → ApiKey =
          apply_update lib.to_rfc3339 (spending lib config key spent) t.written_at in
        let c : HasAtMost k n (keys_of s) = m.counted in
        (
          ground (
            arith,
            c.metered key,
            c.within key,
            eq_iff key.id k,
            spend_metered key t.refilled_at t.written_at spent,
          ),
          record {
            metered = λ x q. ground (
              arith,
              c.metered x,
              c.metered key,
              get-modify key.id k f (keys_of s),
              eq_iff key.id k,
              still_metered key t.written_at spent,
            );
            within = λ x q. ground (
              arith,
              c.within x,
              c.within key,
              c.metered key,
              get-modify key.id k f (keys_of s),
              eq_iff key.id k,
              spend_metered key t.refilled_at t.written_at spent,
            );
          },
        )

    store_use-Counts :
        (n : ℕ) (key : ApiKey) (spent : Option ℤ × Option String) (t : Readings) (s : State Limiter)
        → Meter n s
        → get key.id (keys_of s) ≡ some key
        → spend lib config t.refilled_at key ≡ some spent
        → Counts n (store_use lib config key spent t s)
    unfolding from_entity apply_update
    store_use-Counts n key spent t s m g e =
        let (one, counted) = spend-HasAtMost n key t s spent m g e in
        let accepted : ℕ = if key.id == k then 1 else 0 in
        rw (store_use_lem lib config key spent t s g) (
          n - accepted,
          ground arith,
          clean-Meter (n - accepted) t _ (record {
            keyed =
                modify-KeysById lib.to_rfc3339 (spending lib config key spent) t.written_at key.id
                  (keys_of s) m.keyed;
            counted = counted;
          }),
        )

    use_key-Counts :
        (n : ℕ) (key : ApiKey) (t : Readings) (s : State Limiter)
        → Meter n s
        → get key.id (keys_of s) ≡ some key
        → Counts n (use_key lib config key t s)
    unfolding use_key
    use_key-Counts n key t s m g = elim (Option-cases (spend lib config t.refilled_at key)) [
      | inl e ↦ rw (use_key, e) (n, omega arith, m)
      | inr (spent, e) ↦
          let s' : State Limiter = (check_rate_limit_governor lib config key t.limited_at s).1 in
          let same : keys_of s' ≡ keys_of s =
            ap (λ db. db.api_keys)
              (check_rate_limit_governor_database lib config key t.limited_at s) in
          let m' : Meter n s' = record { keyed = rw same m.keyed; counted = rw same m.counted } in
          elim (Bool-cases (check_rate_limit_governor lib config key t.limited_at s).0) [
            | inr q ↦ rw (use_key, e, q) (n, omega arith, m')
            | inl q ↦ rw (use_key, e, q) (store_use-Counts n key spent t s' m' (rw same g) e)
          ]
    ]

    Tested-Counts :
        (n : ℕ) (key : ApiKey) (required : Option Value) (t : Readings) (s : State Limiter)
        (r : Validation (ApiKeyView Value) × State Limiter)
        → Meter n s
        → get key.id (keys_of s) ≡ some key
        → Tested lib config key required t s r
        → Counts n r
    Tested-Counts n key required t s r m g (refused code) = (n, omega arith, m)
    Tested-Counts n key required t s r m g (evicted code) =
        (n, omega arith, evict-Meter n key.id s m)
    Tested-Counts n key required t s r m g (passed p q u v) = use_key-Counts n key t s m g

    validate_key-Counts :
        (n : ℕ) (key : ApiKey) (required : Option Value) (t : Readings) (s : State Limiter)
        → Meter n s
        → get key.id (keys_of s) ≡ some key
        → Counts n (validate_key lib config key required t s)
    validate_key-Counts n key required t s m g =
        Tested-Counts n key required t s (validate_key lib config key required t s) m g
          (validate_key-Tested lib config key required t s)

    validate_api_key-Counts :
        (n : ℕ) (raw_key : String) (required : Option Value) (t : Readings) (s : State Limiter)
        → Meter n s
        → Counts n (validate_api_key lib config raw_key required t s)
    unfolding validate_api_key get_api_key_by_hash
    validate_api_key-Counts n raw_key required t s m =
        let of_hash : ApiKey → Bool = λ x. x.key_hash == hashed lib config raw_key in
        elim (Option-cases (find of_hash (values (keys_of s)))) [
          | inl e ↦ rw (validate_api_key, get_api_key_by_hash, e) (n, omega arith, m)
          | inr (key, e) ↦
              rw (validate_api_key, get_api_key_by_hash, e)
                (validate_key-Counts n key required t s m
                  (find_stored of_hash (keys_of s) key m.keyed e))
        ]

  -- How many of a sequence of validations accept the key.
  abbrev pub uses : String → List (String × Option Value × Readings) → State Limiter → ℕ
  uses k [] s = 0
  uses k ((raw_key, required, t) ∷ calls) s =
      let (r, s') = validate_api_key lib config raw_key required t s in used k r + uses k calls s'

  uses_bounded :
      (k : String) (calls : List (String × Option Value × Readings)) (n : ℕ) (s : State Limiter)
      → Meter k n s
      → uses k calls s ≤ n
  uses_bounded k [] n s m = omega arith
  uses_bounded k ((raw_key, required, t) ∷ calls) n s m =
      let (left, spent, m') = validate_api_key-Counts k n raw_key required t s m in
      omega
        (arith, uses_bounded k calls left (validate_api_key lib config raw_key required t s).1 m')

  -- If API keys are stored once, under their ids, and a stored key has n uses left (a number that
  -- is not negative) and no refill amount, then any sequence of validations, whatever the texts
  -- presented, the permissions required and the readings of the clock, accepts it at most n
  -- times.
  pub uses-le-remaining :
      (key : ApiKey) (n : ℕ) (calls : List (String × Option Value × Readings)) (s : State Limiter)
      → KeysById (keys_of s)
      → get key.id (keys_of s) ≡ some key
      → key.remaining ≡ some (pos n)
      → key.refill_amount ≡ none
      → uses key.id calls s ≤ n
  uses-le-remaining key n calls s h g r f = uses_bounded key.id calls n s (record {
    keyed = h;
    counted = record { metered = λ x e. ground arith; within = λ x e. ground arith };
  })
