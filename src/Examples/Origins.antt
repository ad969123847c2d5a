-- ===== src/Examples/Origins.antt =====
-- A response to a request of a listed origin.
use better_auth_rs_worker.Prelude.{
  String, ℕ, ◌≡◌, ◌↔◌, refl, true, not, none, some, [], ◌∷◌, ◌&&◌, ◌||◌, ◌==◌, any, if◌then◌else◌,
}
use better_auth_rs_worker.HashMap.{get}
use better_auth_rs_worker.Http.{AuthRequest, HttpMethod, new}
use better_auth_rs_worker.Middleware.Cors.{CorsConfig, after_request}
use better_auth_rs_worker.Middleware.Cors.Granted.{after_request-shared}

abbrev decimal : ℕ → String
decimal _ = "86400"

abbrev one_origin : CorsConfig
one_origin = record {
  allowed_origins = "https://app.example" ∷ [];
  allowed_methods = "GET" ∷ "POST" ∷ [];
  allowed_headers = [];
  exposed_headers = [];
  allow_credentials = true;
  max_age = 86400;
  enabled = true;
}

abbrev from_app : AuthRequest
from_app = record {
  method = HttpMethod.post;
  path = "/sign-in";
  headers = ("origin", "https://app.example") ∷ [];
  body = none;
  query = [];
  virtual_user_id = none;
}

after_request-shared_example :
    (get "Access-Control-Allow-Origin" (after_request decimal one_origin from_app (new 200)).headers
      ≡ some "https://app.example")
    ↔ ((origin : String) × (get "origin" from_app.headers ≡ some origin)
        × (one_origin.enabled ≡ true)
        × (any (λ o. o == "*" || o == origin) one_origin.allowed_origins ≡ true)
        × ("https://app.example" ≡ (
            if not one_origin.allow_credentials && any (λ o. o == "*") one_origin.allowed_origins
            then "*"
            else origin)))
unfolding get
after_request-shared_example =
    after_request-shared decimal one_origin from_app (new 200) "https://app.example" refl
