-- ===== src/Examples/Limits.antt =====
-- A run of the rate limiter: two requests in a window that admits one.
use better_auth_rs_worker.Prelude.{
  String, ℕ, ◌≤◌, ◌≡◌, refl, true, none, List, [], ◌∷◌, arith, filter, length,
}
use better_auth_rs_worker.HashMap.{get}
use better_auth_rs_worker.Http.{AuthRequest, HttpMethod}
use better_auth_rs_worker.Middleware.RateLimit.{RateLimitConfig, limit_for_path, in_window}
use better_auth_rs_worker.Middleware.RateLimit.Refinement.{
  Arrival, decisions, spec_decisions, decisions_lem,
}
use better_auth_rs_worker.Middleware.RateLimit.Bound.{window_bound, times_through, last_time}

abbrev decimal : ℕ → String
decimal _ = "0"

abbrev once_a_second : RateLimitConfig
once_a_second = record {
  default = record { window = 1_000_000_000; max_requests = 1 };
  per_endpoint = [];
  enabled = true;
}

abbrev sign_in : AuthRequest
sign_in = record {
  method = HttpMethod.post;
  path = "/sign-in";
  headers = [];
  body = none;
  query = [];
  virtual_user_id = none;
}

abbrev two_arrivals : List Arrival
two_arrivals = (10, sign_in) ∷ (20, sign_in) ∷ []

decisions_lem_example :
    decisions decimal once_a_second "unknown:/sign-in" two_arrivals []
    ≡ spec_decisions (limit_for_path once_a_second "/sign-in") "unknown:/sign-in" two_arrivals []
unfolding limit_for_path get
decisions_lem_example =
    decisions_lem decimal once_a_second "unknown:/sign-in" "/sign-in" two_arrivals refl
      (omega arith) (omega arith, (omega arith, tt)) ((λ e. refl), ((λ e. refl), tt))

window_bound_example :
    length (
      filter
        (in_window (limit_for_path once_a_second "/sign-in").window (last_time 0 two_arrivals))
        (times_through "unknown:/sign-in" two_arrivals
          (decisions decimal once_a_second "unknown:/sign-in" two_arrivals [])))
    ≤ (limit_for_path once_a_second "/sign-in").max_requests
unfolding limit_for_path get
window_bound_example =
    window_bound decimal once_a_second "unknown:/sign-in" "/sign-in" two_arrivals refl (omega arith)
      (omega arith, (omega arith, tt)) ((λ e. refl), ((λ e. refl), tt))
