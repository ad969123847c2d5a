-- ===== src/Middleware/RateLimit.antt =====
-- crates/core/src/middleware/rate_limit.rs: the sliding-window limiter. An `Instant` is a number of
-- nanoseconds of the monotonic clock, and `now.duration_since(t)` stops at zero, as `-` on ℕ does.
pub mod Refinement
pub mod Bound
use Prim.Native.String.{◌++◌ as concat}
use better_auth_rs_worker.Prelude.{
  ℕ, ◌-◌, ◌/◌, ◌%◌, ◌^◌, String, Bool, true, false, Option, none, some, List, [], ◌∷◌, ◌++◌,
  if◌then◌else◌, ltb, leb, get_or, or_else, filter, length, first,
}
use better_auth_rs_worker.HashMap.{HashMap, get, insert}
use better_auth_rs_worker.Entity.{Instant, Duration}
use better_auth_rs_worker.Http.{AuthRequest, AuthResponse, json, with_header, rate_limit_error}

pub record EndpointRateLimit : Type 0 where
  pub window : Duration
  pub max_requests : ℕ

pub record RateLimitConfig : Type 0 where
  pub default : EndpointRateLimit
  pub per_endpoint : HashMap EndpointRateLimit
  pub enabled : Bool

-- The buckets behind the mutex: the times of the requests let through, by client and path.
abbrev pub Buckets : Type 0
Buckets = HashMap (List Instant)

abbrev nanos_per_second : ℕ
nanos_per_second = 1_000_000_000

-- `Duration::as_secs`
abbrev as_secs : Duration → ℕ
as_secs d = d / nanos_per_second

-- `RateLimitMiddleware::client_key`
unfoldable pub client_key : AuthRequest → String
client_key req =
    get_or (or_else (get "x-forwarded-for" req.headers) (get "x-real-ip" req.headers)) "unknown"

-- `format!("{}:{}", client_key, path)`
unfoldable pub bucket_key : AuthRequest → String
bucket_key req = concat (client_key req) (concat ":" req.path)

-- `RateLimitMiddleware::limit_for_path`
unfoldable pub limit_for_path : RateLimitConfig → String → EndpointRateLimit
limit_for_path config path = get_or (get path config.per_endpoint) config.default

-- `now.duration_since(t) < window`
abbrev pub in_window : Duration → Instant → Instant → Bool
in_window window now t = ltb (now - t) window

-- `timestamps.len() as u32 >= limit.max_requests`
abbrev pub is_full : EndpointRateLimit → List Instant → Bool
is_full limit timestamps = leb limit.max_requests (length timestamps % 2 ^ 32)

-- The seconds until the oldest request of the bucket leaves the window.
abbrev retry_after : Duration → Instant → List Instant → ℕ
retry_after window now timestamps = elim (first timestamps) [
  | none ↦ as_secs window
  | some t ↦ as_secs window - as_secs (now - t)
]

-- `to_string` writes a number in decimal.
module _ (to_string : ℕ → String) where
  -- The 429 answer.
  abbrev too_many : Duration → Instant → List Instant → AuthResponse
  too_many window now timestamps =
      let seconds = retry_after window now timestamps in
      with_header "Retry-After" (to_string seconds)
        (json 429 (rate_limit_error "RATE_LIMIT_EXCEEDED" "Too many requests" seconds))

  -- The decision on the bucket's retained times.
  unfoldable pub settle :
      EndpointRateLimit → String → Instant → List Instant → Buckets → Option AuthResponse × Buckets
  settle limit key now timestamps buckets =
      if is_full limit timestamps
      then (some (too_many limit.window now timestamps), insert key timestamps buckets)
      else (none, insert key (timestamps ++ now ∷ []) buckets)

  -- `before_request`; `timestamps.retain` drops the times that have left the window.
  unfoldable pub before_request :
      RateLimitConfig → AuthRequest → Instant → Buckets → Option AuthResponse × Buckets
  before_request config req now buckets =
      let limit = limit_for_path config req.path in
      let key = bucket_key req in
      let timestamps = filter (in_window limit.window now) (get_or (get key buckets) []) in
      if config.enabled then settle limit key now timestamps buckets else (none, buckets)
