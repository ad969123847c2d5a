-- ===== src/Middleware/Cors.antt =====
-- crates/core/src/middleware/cors.rs: the answer to a preflight request and the headers that a response
-- gets. The printer of numbers is a parameter.
pub mod Granted
use better_auth_rs_worker.Prelude.{
  ℕ, String, concat, Bool, true, false, not, ◌||◌, Option, none, some, List, [], ◌∷◌, ◌++◌, ◌==◌,
  if◌then◌else◌, any,
}
use better_auth_rs_worker.HashMap.{HashMap, get, insert}
use better_auth_rs_worker.Http.{AuthRequest, AuthResponse, HttpMethod, options, new}

pub record CorsConfig : Type 0 where
  pub allowed_origins : List String
  pub allowed_methods : List String
  pub allowed_headers : List String
  pub exposed_headers : List String
  pub allow_credentials : Bool
  pub max_age : ℕ
  pub enabled : Bool

-- `join(", ")`
abbrev pub join : List String → String
join [] = ""
join (s ∷ []) = s
join (s ∷ t ∷ rest) = concat s (concat ", " (join (t ∷ rest)))

abbrev pub is_empty : List String → Bool
is_empty [] = true
is_empty (_ ∷ _) = false

-- `if condition { headers.push((key, value)) }`
abbrev pub push_if : Bool → String → String → List (String × String)
push_if true key value = (key, value) ∷ []
push_if false key value = []

-- The loop that inserts headers.
abbrev pub insert_all : List (String × String) → HashMap String → HashMap String
insert_all [] headers = headers
insert_all ((key, value) ∷ rest) headers = insert_all rest (insert key value headers)

-- `matches!(method, HttpMethod::Options)`
abbrev is_options : HttpMethod → Bool
is_options options = true
is_options _ = false

module _ (to_string : ℕ → String) (config : CorsConfig) where
  -- `CorsMiddleware::is_origin_allowed`
  unfoldable pub is_origin_allowed : String → Bool
  is_origin_allowed origin =
      if is_empty config.allowed_origins
      then false
      else any (λ o. o == "*" || o == origin) config.allowed_origins

  abbrev pub allow_origin : String → String
  allow_origin origin =
      if config.allow_credentials
      then origin
      else if any (λ o. o == "*") config.allowed_origins
      then "*"
      else origin

  -- The headers after the first.
  abbrev pub further_headers : List (String × String)
  further_headers =
      push_if config.allow_credentials "Access-Control-Allow-Credentials" "true"
      ++ (push_if (not (is_empty config.allowed_methods)) "Access-Control-Allow-Methods"
            (join config.allowed_methods)
          ++ (push_if (not (is_empty config.allowed_headers)) "Access-Control-Allow-Headers"
                (join config.allowed_headers)
              ++ (push_if (not (is_empty config.exposed_headers)) "Access-Control-Expose-Headers"
                    (join config.exposed_headers)
                  ++ (("Access-Control-Max-Age", to_string config.max_age) ∷ []))))

  -- `CorsMiddleware::cors_headers`
  abbrev pub cors_headers : String → List (String × String)
  cors_headers origin = ("Access-Control-Allow-Origin", allow_origin origin) ∷ further_headers

  -- `CorsMiddleware::before_request`
  unfoldable pub before_request : AuthRequest → Option AuthResponse
  before_request req = if not config.enabled then none else elim (get "origin" req.headers) [
    | none ↦ none
    | some origin ↦
        if not (is_origin_allowed origin)
        then none
        else if is_options req.method
        then some (record (new 204) { headers = insert_all (cors_headers origin) [] })
        else none
  ]

  -- `CorsMiddleware::after_request`
  unfoldable pub after_request : AuthRequest → AuthResponse → AuthResponse
  after_request req response =
      if not config.enabled then response else elim (get "origin" req.headers) [
        | none ↦ response
        | some origin ↦
            if not (is_origin_allowed origin)
            then response
            else record response { headers = insert_all (cors_headers origin) response.headers }
      ]
