-- ===== src/Oidc/UserInfo/Access.antt =====
-- Who is told the claims of a user.
use better_auth_rs_worker.Prelude.{
  ◌<◌, String, Bool, true, false, ◌≡◌, ◌↔◌, refl, sym, ap, ◌∙◌, ◌==◌, eq_iff, eq_comm, ◌&&◌,
  if◌then◌else◌, or_else, [], Option, none, some, arith, inl, inr, Option-cases, Bool-cases, leb,
}
use better_auth_rs_worker.Error.{ok}
use better_auth_rs_worker.HashMap.{HashMap, get}
use better_auth_rs_worker.HashMap.Laws.{get-insert}
use better_auth_rs_worker.Entity.{Instant, User}
use better_auth_rs_worker.Http.{AuthRequest, Body, json, ClaimValue, string_value, bool_value}
use better_auth_rs_worker.Memory.{MemoryDatabaseAdapter}
use better_auth_rs_worker.Memory.UserOps.{get_user_by_id}
use better_auth_rs_worker.Memory.OidcOps.{get_access_token_by_hash}
use better_auth_rs_worker.Oidc.Model.{AccessTokenRecord, contains}
use better_auth_rs_worker.Oidc.OAuthError.{oauth_error_response, http_status}
use better_auth_rs_worker.Oidc.FormRequest.{Platform}
use better_auth_rs_worker.Oidc.Claims.{project_claims, insert_some}
use better_auth_rs_worker.Oidc.UserInfo.{
  handle_userinfo, token_userinfo, bearer_token, userinfo_body,
}

-- The claim that a body carries under a key.
abbrev pub claim_in : Body → String → Option ClaimValue
claim_in (Body.object claims) key = get key claims
claim_in _ key = none

-- `Option::map`
abbrev as_value : {A : Type 0} → (A → ClaimValue) → Option A → Option ClaimValue
as_value f none = none
as_value f (some a) = some (f a)

-- What a token tells of its user, claim by claim: the name under the scope `profile`, the e-mail
-- address and whether it was verified under the scope `email`, the subject always, and nothing else.
abbrev pub told : AccessTokenRecord → User → String → Option ClaimValue
told r u key =
    if key == "sub"
    then some (string_value r.subject)
    else if key == "name" && contains "profile" r.scope
    then as_value string_value u.name
    else if key == "email" && contains "email" r.scope
    then as_value string_value u.email
    else if key == "email_verified" && contains "email" r.scope
    then some (bool_value u.email_verified)
    else none

get-insert_some :
    {A : Type 0} (k key : String) (value : A → ClaimValue) (o : Option A) (m : HashMap ClaimValue)
    → get key (insert_some k value o m)
      ≡ (if key == k then or_else (as_value value o) (get key m) else get key m)
get-insert_some k key value none m = ground arith
get-insert_some k key value (some a) m = ground (arith, get-insert k key (value a) m, eq_comm k key)

-- `project_claims` as a function of whether the two scopes are granted.
abbrev profile_claims : Bool → Option String → HashMap ClaimValue
profile_claims profile name = if profile then insert_some "name" string_value name [] else []

abbrev projected : Bool → Bool → Option String → Option String → Bool → HashMap ClaimValue
projected profile email name address verified =
    if email
    then insert_some "email_verified" bool_value (some verified)
        (insert_some "email" string_value address (profile_claims profile name))
    else profile_claims profile name

get-profile_claims :
    (key : String) (profile : Bool) (name : Option String)
    → get key (profile_claims profile name)
      ≡ (if key == "name" && profile then as_value string_value name else none)
unfolding get
get-profile_claims key true name =
    ground (arith, get-insert_some "name" key string_value name [], Option-cases name)
get-profile_claims key false name = ground arith

or_else-none : {A : Type 0} (o : Option A) → or_else o none ≡ o
or_else-none none = refl
or_else-none (some a) = refl

-- The three tests on a key exclude each other.
tests_disjoint :
    (key : String) (profile : Bool) (a b : Option ClaimValue) (c : ClaimValue)
    → (if key == "email_verified"
        then some c
        else if key == "email"
        then or_else b (if key == "name" && profile then a else none)
        else if key == "name" && profile
        then a
        else none)
      ≡ (if key == "name" && profile
          then a
          else if key == "email" && true
          then b
          else if key == "email_verified" && true
          then some c
          else none)
tests_disjoint key profile a b c = elim (Bool-cases (key == "name")) [
  | inl p ↦ rw ((eq_iff key "name").0 p) refl
  | inr p ↦ elim (Bool-cases (key == "email")) [
    | inl q ↦ rw ((eq_iff key "email").0 q) (or_else-none b)
    | inr q ↦ rw (p, q) (ground (arith, Bool-cases (key == "email_verified")))
  ]
]

get-projected :
    (key : String) (profile email : Bool) (name address : Option String) (verified : Bool)
    → get key (projected profile email name address verified) ≡ (
        if key == "name" && profile
        then as_value string_value name
        else if key == "email" && email
        then as_value string_value address
        else if key == "email_verified" && email
        then some (bool_value verified)
        else none)
get-projected key profile false name address verified =
    ground (arith, get-profile_claims key profile name)
get-projected key profile true name address verified =
    let m = profile_claims profile name in
    let m' = insert_some "email" string_value address m in
    get-insert_some "email_verified" key bool_value (some verified) m'
    ∙ rw (get-insert_some "email" key string_value address m, get-profile_claims key profile name)
        (tests_disjoint key profile (as_value string_value name) (as_value string_value address)
          (bool_value verified))

userinfo_claim :
    (r : AccessTokenRecord) (u : User) (key : String)
    → claim_in (userinfo_body r u) key ≡ told r u key
unfolding project_claims
userinfo_claim r u key =
    let profile = contains "profile" r.scope in
    let email = contains "email" r.scope in
    ground (
      arith,
      eq_comm "sub" key,
      get-insert "sub" key (string_value r.subject)
          (projected profile email u.name u.email u.email_verified),
      get-projected key profile email u.name u.email u.email_verified,
    )

module _ (platform : Platform) (now : Instant) (db : MemoryDatabaseAdapter) where
  -- What entitles to an answer.
  abbrev pub Entitled : String → AccessTokenRecord → User → Type 0
  Entitled token r u =
      (get (platform.sha256_base64url token) db.oidc_access_tokens ≡ some r)
      × (now < r.expires_at)
      × (get r.subject db.users ≡ some u)

  token_userinfo_iff :
      (token : String) (body : Body)
      → ((token_userinfo platform token now db).0 ≡ ok (json 200 body))
        ↔ ((r : AccessTokenRecord) × (u : User) × Entitled token r u × (body ≡ userinfo_body r u))
  unfolding token_userinfo get_access_token_by_hash get_user_by_id oauth_error_response http_status
  token_userinfo_iff token body =
      elim (Option-cases (get (platform.sha256_base64url token) db.oidc_access_tokens)) [
        | inl n ↦ (λ e. absurd (ground arith), λ (r, u, (a, b, c), d). absurd (ground arith))
        | inr (r, p) ↦ elim (Bool-cases (leb r.expires_at now)) [
          | inl late ↦ (λ e. absurd (ground arith), λ (r, u, (a, b, c), d). absurd (ground arith))
          | inr live ↦ elim (Option-cases (get r.subject db.users)) [
            | inl n ↦ (λ e. absurd (ground arith), λ (r, u, (a, b, c), d). absurd (ground arith))
            | inr (u, q) ↦ (
              λ e. (r, u, (p, ground arith, q), ground arith),
              λ (r, u, (a, b, c), d). ground arith,
            )
          ]
        ]
      ]

  answered :
      (req : AuthRequest) (body : Body)
      → ((handle_userinfo platform req now db).0 ≡ ok (json 200 body)) ↔ (
          (token : String) × (bearer_token platform req ≡ some token)
          × ((r : AccessTokenRecord) × (u : User) × Entitled token r u
              × (body ≡ userinfo_body r u)))
  unfolding handle_userinfo oauth_error_response http_status
  answered req body = elim (Option-cases (bearer_token platform req)) [
    | inl n ↦ (λ e. absurd (ground arith), λ (t, p, x). absurd (ground arith))
    | inr (token, q) ↦ (
      λ e. (token, q, (token_userinfo_iff token body).0 (ground arith)),
      λ (t, p, (r, u, (a, b, c), d)).
          let same : t ≡ token = ground arith in
          let found = (token_userinfo_iff token body).1 (r, u, (ground arith, b, c), d) in
          ground arith,
    )
  ]

  -- The userinfo endpoint answers 200 with a body whose claims, key by key, are `want` exactly
  -- when the request carries a bearer token whose hash is stored with an expiry after `now` and a
  -- subject that is a stored user, and `want` is: the subject under `sub`, the user's name under
  -- `name` if the scope `profile` was granted, the user's address and whether it was verified
  -- under `email` and `email_verified` if the scope `email` was granted, and nothing under any
  -- other key.
  pub handle_userinfo_iff :
      (req : AuthRequest) (want : String → Option ClaimValue)
      → ((body : Body) × ((handle_userinfo platform req now db).0 ≡ ok (json 200 body))
          × ((key : String) → claim_in body key ≡ want key))
        ↔ ((token : String) × (bearer_token platform req ≡ some token)
            × ((r : AccessTokenRecord) × (u : User) × Entitled token r u
                × ((key : String) → want key ≡ told r u key)))
  handle_userinfo_iff req want = (
    λ (body, e, w).
        let (token, q, (r, u, h, same)) = (answered req body).0 e in
        (
          token,
          q,
          (r, u, h, λ key. sym (w key) ∙ ap (λ b. claim_in b key) same ∙ userinfo_claim r u key),
        ),
    λ (token, q, (r, u, h, w)). (
      userinfo_body r u,
      (answered req (userinfo_body r u)).1 (token, q, (r, u, h, refl)),
      λ key. userinfo_claim r u key ∙ sym (w key),
    ),
  )
