-- ===== src/Middleware/Cors/Granted.antt =====
-- Which origin a response is shared with.
use better_auth_rs_worker.Prelude.{
  ℕ, String, Bool, true, false, not, ◌&&◌, ◌||◌, Option, none, some, List, [], ◌∷◌, ◌++◌, ◌==◌, ◌≡◌,
  ◌↔◌, refl, arith, inl, inr, Option-cases, Bool-cases, if◌then◌else◌, any, all,
}
use better_auth_rs_worker.HashMap.{HashMap, get, insert}
use better_auth_rs_worker.HashMap.Laws.{get-insert, get-insert_self}
use better_auth_rs_worker.Http.{AuthRequest, AuthResponse}
use better_auth_rs_worker.Middleware.Cors.{
  CorsConfig, is_empty, join, push_if, insert_all, is_origin_allowed, allow_origin, further_headers,
  after_request,
}

-- Headers with other names leave a header as it is.
get-insert_all :
    (name : String) (xs : List (String × String)) (m : HashMap String)
    → all (λ x. not (x.0 == name)) xs ≡ true
    → get name (insert_all xs m) ≡ get name m
get-insert_all name [] m h = refl
get-insert_all name ((key, value) ∷ rest) m h =
    ground (arith, get-insert_all name rest (insert key value m), get-insert key name value m)

-- The one name that decides who may read a response.
abbrev shared_with : String
shared_with = "Access-Control-Allow-Origin"

abbrev is_other : String × String → Bool
is_other x = not (x.0 == shared_with)

-- The test for an empty list changes nothing.
any-is_empty :
    (p : String → Bool) (xs : List String) → (if is_empty xs then false else any p xs) ≡ any p xs
any-is_empty p [] = refl
any-is_empty p (x ∷ xs) = refl

other_headers :
    (a b c d : Bool) (methods headers exposed age : String)
    → all is_other (
        push_if a "Access-Control-Allow-Credentials" "true"
        ++ (push_if b "Access-Control-Allow-Methods" methods
            ++ (push_if c "Access-Control-Allow-Headers" headers
                ++ (push_if d "Access-Control-Expose-Headers" exposed
                    ++ (("Access-Control-Max-Age", age) ∷ [])))))
      ≡ true
other_headers a b c d methods headers exposed age =
    ground (arith, Bool-cases a, Bool-cases b, Bool-cases c, Bool-cases d)

module _ (to_string : ℕ → String) (config : CorsConfig) where
  further_headers-other : all is_other (further_headers to_string config) ≡ true
  further_headers-other =
      other_headers config.allow_credentials (not (is_empty config.allowed_methods))
        (not (is_empty config.allowed_headers)) (not (is_empty config.exposed_headers))
        (join config.allowed_methods) (join config.allowed_headers) (join config.exposed_headers)
        (to_string config.max_age)

  -- The origin that a request is granted, if any.
  unfoldable pub granted : AuthRequest → Option String
  granted req = elim (get "origin" req.headers) [
    | none ↦ none
    | some origin ↦
        if config.enabled && any (λ o. o == "*" || o == origin) config.allowed_origins
        then some (allow_origin to_string config origin)
        else none
  ]

  after_request-granted :
      (req : AuthRequest) (response : AuthResponse)
      → get "Access-Control-Allow-Origin" response.headers ≡ none
      → get "Access-Control-Allow-Origin" (after_request to_string config req response).headers
        ≡ granted req
  unfolding after_request is_origin_allowed granted
  after_request-granted req response fresh = elim (Option-cases (get "origin" req.headers)) [
    | inl e ↦ ground arith
    | inr (origin, e) ↦
        let inserted =
          get-insert_all shared_with (further_headers to_string config)
            (insert shared_with (allow_origin to_string config origin) response.headers)
            further_headers-other in
        let tested = any-is_empty (λ o. o == "*" || o == origin) config.allowed_origins in
        let first =
          get-insert_self shared_with (allow_origin to_string config origin) response.headers in
        elim (Bool-cases config.enabled) [
          | inr off ↦ ground arith
          | inl on ↦ elim (Bool-cases (any (λ o. o == "*" || o == origin) config.allowed_origins)) [
            | inl listed ↦ ground arith
            | inr foreign ↦ ground arith
          ]
        ]
  ]

  -- If a response does not yet say whom it is shared with, then after the middleware it does
  -- exactly when the middleware is enabled and the request has an origin that is listed or
  -- covered by a listed `*`; it is shared with that origin, or, where credentials are not allowed
  -- and `*` is listed, with all.
  pub after_request-shared :
      (req : AuthRequest) (response : AuthResponse) (shared : String)
      → get "Access-Control-Allow-Origin" response.headers ≡ none
      → (get "Access-Control-Allow-Origin" (after_request to_string config req response).headers
          ≡ some shared)
        ↔ ((origin : String) × (get "origin" req.headers ≡ some origin)
            × (config.enabled ≡ true)
            × (any (λ o. o == "*" || o == origin) config.allowed_origins ≡ true)
            × (shared ≡ (
                if not config.allow_credentials && any (λ o. o == "*") config.allowed_origins
                then "*"
                else origin)))
  unfolding granted
  after_request-shared req response shared fresh =
      let sent = after_request-granted req response fresh in
      elim (Option-cases (get "origin" req.headers)) [
        | inl e ↦ (λ h. absurd (ground arith), λ (o, p, a, b, c). absurd (ground arith))
        | inr (origin, e) ↦
            elim (Bool-cases
              (config.enabled && any (λ o. o == "*" || o == origin) config.allowed_origins)) [
                | inr off ↦ (λ h. absurd (ground arith), λ (o, p, a, b, c). absurd (ground arith))
                | inl on ↦ (
                  λ h. (origin, e, ground arith, ground arith, ground arith),
                  λ (o, p, a, b, c). ground arith,
                )
              ]
      ]
