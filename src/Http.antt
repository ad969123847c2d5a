-- ===== src/Http.antt =====
-- crates/core/src/types.rs: requests and responses. A JSON body is kept as the value that is
-- serialised; a request body is its bytes.
use better_auth_rs_worker.Prelude.{Bool, ℕ, String, Option, List, [], ◌∷◌}
use better_auth_rs_worker.HashMap.{HashMap, insert}

pub data HttpMethod : Type 0 where
  get_method post put delete patch options head : HttpMethod

pub record AuthRequest : Type 0 where
  pub method : HttpMethod
  pub path : String
  pub headers : HashMap String
  pub body : Option (List ℕ)
  pub query : HashMap String
  pub virtual_user_id : Option String

-- The two forms of `serde_json::Value` that the values of a JSON object take here.
pub data ClaimValue : Type 0 where
  string_value : String → ClaimValue
  bool_value : Bool → ClaimValue

-- The bodies that the modelled code makes: none, `CodeMessageResponse`, `RateLimitErrorResponse`, and
-- the OIDC provider's error (code and description) and `TokenResponse` (the access token, its type
-- and seconds, the id token and the scope), and a JSON
-- object.
pub data Body : Type 0 where
  empty : Body
  code_message : String → String → Body
  rate_limit_error : String → String → ℕ → Body
  oauth_error_body : String → String → Body
  token_response : String → String → ℕ → String → String → Body
  object : HashMap ClaimValue → Body
  raw : List ℕ → Body

pub record AuthResponse : Type 0 where
  pub status : ℕ
  pub headers : HashMap String
  pub body : Body

-- `AuthResponse::new`
abbrev pub new : ℕ → AuthResponse
new status = record { status = status; headers = []; body = empty }

-- `AuthResponse::json`
abbrev pub json : ℕ → Body → AuthResponse
json status body = record {
  status = status;
  headers = ("content-type", "application/json") ∷ [];
  body = body;
}

-- `AuthResponse::with_header`
abbrev pub with_header : String → String → AuthResponse → AuthResponse
with_header name value response = record response { headers = insert name value response.headers }
