-- ===== src/Oidc/Claims.antt =====
-- crates/api/src/plugins/oidc_provider/claims.rs: the claims that the granted scopes expose.
pub mod Projection
use better_auth_rs_worker.Prelude.{ℕ, ◌+◌, ◌/◌, String, Bool, Option, none, some, [], if◌then◌else◌}
use better_auth_rs_worker.HashMap.{HashMap, get, insert}
use better_auth_rs_worker.Http.{ClaimValue, string_value, bool_value}
use better_auth_rs_worker.Entity.{Instant, Duration, User}
use better_auth_rs_worker.Oidc.Model.{ScopeSet, contains}
use better_auth_rs_worker.Oidc.Decide.{TokenGrant}

pub record SubjectClaims : Type 0 where
  pub name : Option String
  pub email : Option String
  pub email_verified : Option Bool

-- `SubjectClaims::default`
abbrev pub no_claims : SubjectClaims
no_claims = record { name = none; email = none; email_verified = none }

-- `handlers::subject_claims_from_user`
abbrev pub subject_claims_from_user : User → SubjectClaims
subject_claims_from_user user = record {
  name = user.name;
  email = user.email;
  email_verified = some user.email_verified;
}

-- `Value::as_str`
abbrev pub as_text : ClaimValue → Option String
as_text (string_value s) = some s
as_text (bool_value _) = none

-- `Value::as_bool`
abbrev pub as_bool : ClaimValue → Option Bool
as_bool (string_value _) = none
as_bool (bool_value b) = some b

-- `if let Some(a) = option { claims.insert(key, value) }`
abbrev pub insert_some :
    {A : Type 0} → String → (A → ClaimValue) → Option A → HashMap ClaimValue → HashMap ClaimValue
insert_some key value none claims = claims
insert_some key value (some a) claims = insert key (value a) claims

unfoldable pub project_claims : ScopeSet → SubjectClaims → HashMap ClaimValue
project_claims granted source =
    let claims =
      if contains "profile" granted then insert_some "name" string_value source.name [] else [] in
    if contains "email" granted
    then insert_some "email_verified" bool_value source.email_verified
        (insert_some "email" string_value source.email claims)
    else claims

pub record IdTokenClaims : Type 0 where
  pub iss : String
  pub sub : String
  pub aud : String
  pub exp : ℕ
  pub iat : ℕ
  pub auth_time : ℕ
  pub nonce : Option String
  pub name : Option String
  pub email : Option String
  pub email_verified : Option Bool

-- `DateTime::timestamp`, the whole seconds of an instant.
abbrev pub timestamp : Instant → ℕ
timestamp t = t / 1000000000

abbrev pub then_get : {A : Type 0} → (ClaimValue → Option A) → Option ClaimValue → Option A
then_get f none = none
then_get f (some v) = f v

unfoldable pub build_id_token_claims :
    String → TokenGrant → SubjectClaims → Instant → Duration → IdTokenClaims
build_id_token_claims issuer grant source now ttl =
    let projected = project_claims grant.scope source in
    record {
      iss = issuer;
      sub = grant.subject;
      aud = grant.client_id;
      exp = timestamp (now + ttl);
      iat = timestamp now;
      auth_time = timestamp grant.auth_time;
      nonce = grant.nonce;
      name = then_get as_text (get "name" projected);
      email = then_get as_text (get "email" projected);
      email_verified = then_get as_bool (get "email_verified" projected);
    }
