-- ===== src/Oidc/FormRequest.antt =====
-- crates/api/src/plugins/oidc_provider/handlers.rs: the helpers that read a request of the token
-- endpoint, with the parsers of crates/core/src/oidc/model.rs that they call.
pub mod Refusal
use better_auth_rs_worker.Prelude.{
  ℕ, ◌+◌, String, len, concat, Bool, Option, none, some, List, [], ◌∷◌, ◌==◌, if◌then◌else◌, ◌&&◌,
  or_else, leb,
}
use text.Mathlib.Text.{starts_with, find?}
use Prim.Native.String.{slice}
use better_auth_rs_worker.Error.{AuthResult, ok, err, validation}
use better_auth_rs_worker.HashMap.{HashMap, get, insert}
use better_auth_rs_worker.Http.{AuthRequest}
use better_auth_rs_worker.Oidc.OAuthError.{
  OAuthErrorCode, OAuthResult, accepted, refused, oauth_error,
}

-- What `Url::parse` says of a text.
pub data ParsedUrl : Type 0 where
  malformed : String → ParsedUrl
  parsed : (cannot_be_a_base has_fragment : Bool) → ParsedUrl

-- The third-party code that the endpoint calls: SHA-256 with base64url, form decoding, Basic
-- decoding (base64, then UTF-8), the URL parser and `str::trim`.
pub record Platform : Type 0 where
  pub sha256_base64url : String → String
  pub form_urlencoded : List ℕ → List (String × String)
  pub decode_basic : String → Option String
  pub parse_url : String → ParsedUrl
  pub trim : String → String

-- `str::strip_prefix`
abbrev pub strip_prefix : String → String → Option String
strip_prefix p s = if starts_with s p then some (slice s (len p) (len s)) else none

-- `str::split_once` on a separator of one byte.
abbrev split_once : String → String → Option (String × String)
split_once sep s = elim (find? s sep) [
  | none ↦ none
  | some i ↦ some (slice s 0 i, slice s (i + 1) (len s))
]

-- The loop of `parse_form`: a later pair replaces an earlier one.
abbrev collect : List (String × String) → HashMap String → HashMap String
collect [] form = form
collect ((key, value) ∷ rest) form = collect rest (insert key value form)

-- `CodeVerifier::parse`
abbrev parse_code_verifier : String → AuthResult String
parse_code_verifier raw =
    if leb 43 (len raw) && leb (len raw) 128
    then ok raw
    else err (validation "code_verifier length must be between 43 and 128 characters")

module _ (platform : Platform) where
  abbrev pub parse_form : AuthRequest → HashMap String
  parse_form req = elim req.body [
    | none ↦ []
    | some body ↦ collect (platform.form_urlencoded body) []
  ]

  -- `ClientId::parse`
  abbrev pub parse_client_id : String → AuthResult String
  parse_client_id raw =
      if platform.trim raw == "" then err (validation "client_id must not be empty") else ok raw

  -- `RedirectUri::parse`
  abbrev pub parse_redirect_uri : String → AuthResult String
  parse_redirect_uri raw = elim (platform.parse_url raw) [
    | malformed e ↦ err (validation (concat "redirect_uri must be an absolute URI: " e))
    | parsed cannot_be_a_base has_fragment ↦
        if cannot_be_a_base
        then err (validation "redirect_uri must be absolute")
        else if has_fragment
        then err (validation "redirect_uri must not contain a fragment")
        else ok raw
  ]

  -- The `Authorization` header's Basic credentials.
  abbrev basic_header : AuthRequest → Option String
  basic_header req = elim (get "authorization" req.headers) [
    | none ↦ none
    | some h ↦ or_else (strip_prefix "Basic " h) (strip_prefix "basic " h)
  ]

  abbrev basic_credentials : String → OAuthResult (String × Option String)
  basic_credentials encoded = elim (platform.decode_basic (platform.trim encoded)) [
    | none ↦
        refused (oauth_error OAuthErrorCode.invalid_client "malformed Basic authorization header")
    | some decoded ↦ elim (split_once ":" decoded) [
      | none ↦
          refused (oauth_error OAuthErrorCode.invalid_client "malformed Basic authorization header")
      | some (id, secret) ↦ accepted (id, some secret)
    ]
  ]

  unfoldable pub client_credentials :
      AuthRequest → HashMap String → OAuthResult (String × Option String)
  client_credentials req form = elim (basic_header req) [
    | some encoded ↦ basic_credentials encoded
    | none ↦ elim (get "client_id" form) [
      | none ↦
          refused (oauth_error OAuthErrorCode.invalid_client "client authentication is required")
      | some id ↦ accepted (id, get "client_secret" form)
    ]
  ]

-- `Option::map(CodeVerifier::parse).transpose()`
abbrev pub code_verifier_of : Option String → AuthResult (Option String)
code_verifier_of none = ok none
code_verifier_of (some raw) = elim (parse_code_verifier raw) [ ok v ↦ ok (some v) | err e ↦ err e ]
