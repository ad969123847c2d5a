-- ===== src/Oidc/Authorize/Steps.antt =====
-- What the steps of the authorization endpoint give when they succeed.
use better_auth_rs_worker.Prelude.{
  String, Bool, true, Option, none, some, List, [], ◌∷◌, ◌≡◌, refl, arith, inl, inr, Option-cases,
  Bool-cases, find, any, ◌==◌, eq_iff,
}
use better_auth_rs_worker.Error.{AuthResult, ok, err, unauthenticated}
use better_auth_rs_worker.HashMap.Distinct.{find-some}
use better_auth_rs_worker.Entity.{Instant, Duration, User, Session}
use better_auth_rs_worker.Oidc.Model.{OAuthClient}
use better_auth_rs_worker.Oidc.OAuthError.{OAuthError, accepted}
use better_auth_rs_worker.Oidc.Requests.{AuthenticatedSubject, AuthorizationRequest}
use better_auth_rs_worker.Oidc.Rules.{validate_redirect_uri}
use better_auth_rs_worker.Oidc.Decide.{deny, decide_authorization}
use better_auth_rs_worker.Oidc.Decide.Grants.{PromptMode-cases}
use better_auth_rs_worker.Oidc.TokenEndpoint.Redeem.{OAuthResult-cases}
use better_auth_rs_worker.Oidc.FormRequest.{Platform, parse_client_id}
use better_auth_rs_worker.Oidc.Authorize.{or_bad_request, or_invalid, subject_of}

find-any :
    (p : String → Bool) (xs : List String) (x : String) → find p xs ≡ some x → any p xs ≡ true
find-any p [] x e = absurd (ground arith)
find-any p (y ∷ xs) x e = ground (arith, find-any p xs x)

-- A redirect URI that is found is the one requested, and a registered one.
validate_redirect_uri_same :
    (client : OAuthClient) (raw uri : String)
    → validate_redirect_uri client raw ≡ accepted uri
    → (uri ≡ raw) × (any (λ u. u == raw) client.redirect_uris ≡ true)
unfolding validate_redirect_uri
validate_redirect_uri_same client raw uri e =
    elim (Option-cases (find (λ u. u == raw) client.redirect_uris)) [
      | inl n ↦ absurd (ground arith)
      | inr (x, p) ↦ (
        ground (arith, find-some (λ u. u == raw) client.redirect_uris x p, eq_iff x raw),
        find-any (λ u. u == raw) client.redirect_uris x p,
      )
    ]

pub same_uri :
    (client : OAuthClient) (raw uri : String)
    → or_bad_request "redirect_uri does not match a registered URI"
        (validate_redirect_uri client raw)
      ≡ ok uri
    → (uri ≡ raw) × (any (λ u. u == uri) client.redirect_uris ≡ true)
same_uri client raw uri e = elim (OAuthResult-cases (validate_redirect_uri client raw)) [
  | inr (f, p) ↦ absurd (ground arith)
  | inl (x, p) ↦
      let (same, registered) = validate_redirect_uri_same client raw x p in
      let agree : uri ≡ raw = ground arith in (agree, rw agree registered)
]

pub same_client_id :
    (platform : Platform) (raw id : String)
    → or_invalid "invalid client_id" (parse_client_id platform raw) ≡ ok id
    → id ≡ raw
same_client_id platform raw id e = elim (Bool-cases (platform.trim raw == "")) [
  | inl p ↦ absurd (ground arith)
  | inr p ↦ ground arith
]

-- A subject is that of the session that was found.
pub subject_of-some :
    (r : AuthResult (User × Session)) (sub : AuthenticatedSubject)
    → subject_of r ≡ ok (some sub)
    → (user : User) × (session : Session) × (r ≡ ok (user, session))
      × (sub.subject ≡ user.id)
      × (sub.auth_time ≡ session.created_at)
subject_of-some (ok (user, session)) sub e = (user, session, refl, ground arith, ground arith)
subject_of-some (err unauthenticated) sub e = absurd (ground arith)
subject_of-some (err f) sub e = absurd (ground arith)

-- A denial goes back to the URI of the request with its state.
pub decide_authorization_denies :
    (request : AuthorizationRequest) (subject : Option AuthenticatedSubject) (hook : Bool)
    (now : Instant) (ttl : Duration) (e : OAuthError) (uri : String) (state : Option String)
    → decide_authorization request subject hook now ttl ≡ deny e uri state
    → (uri ≡ request.redirect_uri) × (state ≡ request.state)
unfolding decide_authorization
decide_authorization_denies request none hook now ttl e uri state p =
    ground (arith, PromptMode-cases request.prompt, Bool-cases hook)
decide_authorization_denies request (some sub) hook now ttl e uri state p =
    ground (arith, PromptMode-cases request.prompt, Bool-cases hook)
