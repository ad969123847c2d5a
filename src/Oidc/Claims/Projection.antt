-- ===== src/Oidc/Claims/Projection.antt =====
-- The id token carries the claims of the granted scopes and no other.
use better_auth_rs_worker.Prelude.{
  String, Bool, true, false, Option, none, some, ◌≡◌, refl, if◌then◌else◌, ◌==◌, arith, [], ap, ◌∙◌,
}
use better_auth_rs_worker.HashMap.{HashMap, get}
use better_auth_rs_worker.HashMap.Laws.{get-insert, get-insert_self}
use better_auth_rs_worker.Http.{ClaimValue, string_value, bool_value}
use better_auth_rs_worker.Entity.{Instant, Duration}
use better_auth_rs_worker.Oidc.Model.{contains}
use better_auth_rs_worker.Oidc.Decide.{TokenGrant}
use better_auth_rs_worker.Oidc.Claims.{
  SubjectClaims, build_id_token_claims, project_claims, insert_some, then_get, as_text, as_bool,
}

module _ {A : Type 0} (key : String) (value : A → ClaimValue) (m : HashMap ClaimValue) where
  get-insert_some_other :
      (other : String) (o : Option A)
      → (key == other) ≡ false
      → get other (insert_some key value o m) ≡ get other m
  get-insert_some_other other none ne = refl
  get-insert_some_other other (some a) ne = ground (arith, get-insert key other (value a) m)

  get-insert_some :
      (read : ClaimValue → Option A) (o : Option A)
      → ((a : A) → read (value a) ≡ some a)
      → get key m ≡ none
      → then_get read (get key (insert_some key value o m)) ≡ o
  get-insert_some read none inverse absent = ap (then_get read) absent
  get-insert_some read (some a) inverse absent =
      ap (then_get read) (get-insert_self key (value a) m) ∙ inverse a

module _ (source : SubjectClaims) where
  abbrev profile_claims : Bool → HashMap ClaimValue
  profile_claims profile = if profile then insert_some "name" string_value source.name [] else []

  abbrev name_and_email : Bool → HashMap ClaimValue
  name_and_email profile = insert_some "email" string_value source.email (profile_claims profile)

  -- `project_claims` as a function of whether the two scopes are granted.
  abbrev projected : Bool → Bool → HashMap ClaimValue
  projected profile email =
      if email
      then insert_some "email_verified" bool_value source.email_verified (name_and_email profile)
      else profile_claims profile

  profile_name :
      (profile : Bool)
      → then_get as_text (get "name" (profile_claims profile))
        ≡ (if profile then source.name else none)
  unfolding get
  profile_name true = get-insert_some "name" string_value [] as_text source.name (λ a. refl) refl
  profile_name false = refl

  profile_other :
      (key : String) (profile : Bool)
      → ("name" == key) ≡ false
      → get key (profile_claims profile) ≡ none
  unfolding get
  profile_other key true ne = get-insert_some_other "name" string_value [] key source.name ne
  profile_other key false ne = refl

  name_claim :
      (profile email : Bool)
      → then_get as_text (get "name" (projected profile email))
        ≡ (if profile then source.name else none)
  name_claim profile true =
      ap (then_get as_text) (
        get-insert_some_other "email_verified" bool_value (name_and_email profile) "name"
          source.email_verified refl
        ∙ get-insert_some_other "email" string_value (profile_claims profile) "name" source.email
            refl)
      ∙ profile_name profile
  name_claim profile false = profile_name profile

  email_claim :
      (profile email : Bool)
      → then_get as_text (get "email" (projected profile email))
        ≡ (if email then source.email else none)
  email_claim profile true =
      ap (then_get as_text) (
        get-insert_some_other "email_verified" bool_value (name_and_email profile) "email"
          source.email_verified refl)
      ∙ get-insert_some "email" string_value (profile_claims profile) as_text source.email
          (λ a. refl) (profile_other "email" profile refl)
  email_claim profile false = ap (then_get as_text) (profile_other "email" profile refl)

  email_verified_claim :
      (profile email : Bool)
      → then_get as_bool (get "email_verified" (projected profile email))
        ≡ (if email then source.email_verified else none)
  email_verified_claim profile true =
      get-insert_some "email_verified" bool_value (name_and_email profile) as_bool
        source.email_verified (λ a. refl)
        (get-insert_some_other "email" string_value (profile_claims profile) "email_verified"
            source.email refl
          ∙ profile_other "email_verified" profile refl)
  email_verified_claim profile false =
      ap (then_get as_bool) (profile_other "email_verified" profile refl)

-- The id token carries the subject's name if the scope `profile` was granted and none otherwise,
-- and the subject's e-mail address and whether it was verified if the scope `email` was granted
-- and none otherwise.
pub build_id_token_claims_granted :
    (issuer : String) (grant : TokenGrant) (source : SubjectClaims) (now : Instant) (ttl : Duration)
    → let claims = build_id_token_claims issuer grant source now ttl in
      (claims.name ≡ (if contains "profile" grant.scope then source.name else none))
      × (claims.email ≡ (if contains "email" grant.scope then source.email else none))
      × (claims.email_verified
          ≡ (if contains "email" grant.scope then source.email_verified else none))
unfolding build_id_token_claims project_claims
build_id_token_claims_granted issuer grant source now ttl =
    let profile = contains "profile" grant.scope in
    let email = contains "email" grant.scope in
    (
      name_claim source profile email,
      email_claim source profile email,
      email_verified_claim source profile email,
    )
