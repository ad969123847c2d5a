-- ===== src/Middleware/RateLimit/Bound.antt =====
-- No window ever holds more than `max_requests` requests that were let through.
use mathlib.Core.List.{append_assoc, append-nil}
use better_auth_rs_worker.Prelude.{
  ℕ, ◌≤◌, ◌<◌, ◌+◌, ◌^◌, String, ◌≡◌, Bool, true, List, [], ◌∷◌, ◌++◌, if◌then◌else◌, filter,
  length, arith, ◌==◌, filter-append, filter-filter_all, length-append, Bool-cases, inl, inr,
  length-filter-le,
}
use better_auth_rs_worker.Entity.{Instant}
use better_auth_rs_worker.Middleware.RateLimit.{
  RateLimitConfig, EndpointRateLimit, bucket_key, limit_for_path, in_window,
}
use better_auth_rs_worker.Middleware.RateLimit.Refinement.{
  Arrival, allows, decisions, spec_decisions, decisions_lem, Increasing, SamePath,
}

-- The times of the arrivals with the key `k` that the decisions let through.
pub times_through : String → List Arrival → List Bool → List Instant
times_through k [] ds = []
times_through k ((now, req) ∷ rest) ds =
    let skip = times_through k rest ds in
    if bucket_key req == k
    then elim ds [
      | [] ↦ []
      | d ∷ ds' ↦ (let later = times_through k rest ds' in if d then now ∷ later else later)
    ]
    else skip

-- The time of the last arrival.
pub last_time : Instant → List Arrival → Instant
last_time last [] = last
last_time last ((now, req) ∷ rest) = last_time now rest

module _ (limit : EndpointRateLimit) (k : String) where
  count : Instant → List Instant → ℕ
  count now xs = length (filter (in_window limit.window now) xs)

  count_later : (last now : Instant) (xs : List Instant) → last ≤ now → count now xs ≤ count last xs
  unfolding count
  count_later last now xs le =
      rw
        (← filter-filter_all (in_window limit.window now) (in_window limit.window last) xs
          (λ t e. ground arith))
        (length-filter-le (in_window limit.window now) (filter (in_window limit.window last) xs))

  count-append : (now : Instant) (xs : List Instant) → count now (xs ++ now ∷ []) ≤ count now xs + 1
  unfolding count
  count-append now xs = rw filter-append (
      ground (
        arith,
        length-append (filter (in_window limit.window now) xs)
            (filter (in_window limit.window now) (now ∷ [])),
      ))

  within :
      (now : Instant) (history : List Instant)
      → allows limit now history ≡ true
      → count now (history ++ now ∷ []) ≤ limit.max_requests
  unfolding count allows
  within now history room = ground (arith, count-append now history)

  spec_bound :
      (last : Instant) (arrivals : List Arrival) (history : List Instant)
      → Increasing last arrivals
      → count last history ≤ limit.max_requests
      → count
          (last_time last arrivals)
          (history ++ times_through k arrivals (spec_decisions limit k arrivals history))
        ≤ limit.max_requests
  unfolding last_time times_through spec_decisions
  spec_bound last [] history up h = rw append-nil h
  spec_bound last ((now, req) ∷ rest) history up h =
      let same =
        spec_bound now rest history up.1 (omega (arith, count_later last now history up.0, h)) in
      elim (Bool-cases (bucket_key req == k)) [
        | inr other ↦ rw other same
        | inl own ↦ elim (Bool-cases (allows limit now history)) [
          | inr full ↦ rw (own, full) same
          | inl room ↦
              rw (own, room)
                (rw (← append_assoc history (now ∷ []))
                  (spec_bound now rest (history ++ now ∷ []) up.1 (within now history room)))
        ]
      ]

-- From empty buckets, on any arrivals in time order, an enabled limiter whose limit for the path
-- `p` is below 2 ^ 32 has let through at most that many of the requests with the bucket key `k`
-- in the window that ends at the last arrival, if all requests with that key ask for `p`.
pub window_bound :
    (to_string : ℕ → String) (config : RateLimitConfig) (k p : String) (arrivals : List Arrival)
    → config.enabled ≡ true
    → (limit_for_path config p).max_requests < 2 ^ 32
    → Increasing 0 arrivals
    → SamePath k p arrivals
    → length (
        filter
          (in_window (limit_for_path config p).window (last_time 0 arrivals))
          (times_through k arrivals (decisions to_string config k arrivals [])))
      ≤ (limit_for_path config p).max_requests
unfolding count
window_bound to_string config k p arrivals on small up same =
    rw (decisions_lem to_string config k p arrivals on small up same)
      (spec_bound (limit_for_path config p) k 0 arrivals [] up (omega arith))
