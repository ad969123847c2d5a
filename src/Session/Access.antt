-- ===== src/Session/Access.antt =====
-- What an access to a session returns and leaves behind.
use better_auth_rs_worker.Prelude.{
  ◌+◌, ◌≤◌, String, ◌≡◌, refl, Bool, true, false, not, Option, none, some, arith, ◌==◌, eq_refl,
  eq_iff, if◌then◌else◌, is_some, inl, inr, Bool-cases,
}
use better_auth_rs_worker.Error.{AuthResult, ok, AuthResult-cases}
use better_auth_rs_worker.Entity.{Instant, Session}
use better_auth_rs_worker.Session.{
  SessionStore, SessionConfig, get_session, check, is_dead, should_refresh, refresh, reread_or,
}
use better_auth_rs_worker.Session.Laws.{SessionStoreLaws, extended}

-- Whether the session that was read, if any, is neither expired nor inactive.
abbrev pub found_live : Instant → Option Session → Bool
found_live now none = false
found_live now (some s) = not (is_dead now s)

module _ (store : SessionStore) (config : SessionConfig) (token : String)
    (now later written : Instant) where
  refresh_available :
      (s : Session) (st : store.State)
      → (y : Option Session) × ((refresh store config s token later written st).0 ≡ ok y)
        × (is_some y ≡ true)
  refresh_available s st =
      elim (AuthResult-cases
        (store.update_session_expiry token (later + config.expires_in) written st).0) [
          | inr (e, p) ↦ (some s, ground arith, refl)
          | inl (_, p) ↦ (
            some (
                reread_or store config s
                  (store.get_session token
                    (store.update_session_expiry token (later + config.expires_in) written
                      st).1).0),
            ground arith,
            refl,
          )
        ]

  -- Over any store, if the first read of an access succeeds, the access succeeds, and it returns
  -- a session exactly when that read found one neither expired nor inactive, whatever becomes of
  -- the later reads and writes.
  pub get_session_available :
      (st : store.State) (x : Option Session)
      → (store.get_session token st).0 ≡ ok x
      → (y : Option Session) × ((get_session store config token now later written st).0 ≡ ok y)
        × (is_some y ≡ found_live now x)
  unfolding get_session
  get_session_available st none e = (none, ground arith, refl)
  get_session_available st (some s) e = elim (Bool-cases (is_dead now s)) [
    | inl dead ↦ (none, ground arith, ground arith)
    | inr live ↦ elim (Bool-cases (should_refresh config now s)) [
      | inr stays ↦ (some s, ground arith, ground arith)
      | inl moves ↦
          let (y, p, q) = refresh_available s (store.get_session token st).1 in
          (y, ground arith, ground arith)
    ]
  ]

-- The session that an access returns: none if it is missing, expired or inactive, else itself,
-- extended where a refresh is due.
unfoldable pub accessed :
    SessionConfig → Instant → Instant → Instant → Option Session → Option Session
accessed config now later written none = none
accessed config now later written (some s) =
    if is_dead now s
    then none
    else if should_refresh config now s
    then some (extended (later + config.expires_in) written s)
    else some s

module _ {store : SessionStore} (laws : SessionStoreLaws store) (config : SessionConfig)
    (token : String) (now later written : Instant) where
  open laws use {lookup, get_lem, update_ok, lookup-update, delete_ok, lookup-delete}

  abbrev Leaves : Option Session → AuthResult (Option Session) × store.State → store.State → Type 0
  Leaves y out st =
      (out.0 ≡ ok y) × ((j : String) → lookup out.1 j ≡ (if token == j then y else lookup st j))

  refresh_lem :
      (s : Session) (st : store.State)
      → lookup st token ≡ some s
      → Leaves
          (some (extended (later + config.expires_in) written s))
          (refresh store config s token later written st)
          st
  refresh_lem s st e =
      let expires_at = later + config.expires_in in
      let st' = (store.update_session_expiry token expires_at written st).1 in
      (
        ground (
          arith,
          update_ok token expires_at written st,
          get_lem token st',
          lookup-update token expires_at written st token,
          eq_refl token,
        ),
        λ j. ground (
          arith,
          update_ok token expires_at written st,
          get_lem token st',
          lookup-update token expires_at written st j,
          eq_iff token j,
        ),
      )

  check_lem :
      (x : Option Session) (st : store.State)
      → lookup st token ≡ x
      → Leaves
          (accessed config now later written x)
          (check store config x token now later written st)
          st
  unfolding accessed
  check_lem none st e = (refl, λ j. ground (arith, eq_iff token j))
  check_lem (some s) st e = elim (Bool-cases (is_dead now s)) [
    | inl dead ↦ (
      ground (arith, delete_ok token st),
      λ j. ground (arith, delete_ok token st, lookup-delete token st j),
    )
    | inr live ↦ elim (Bool-cases (should_refresh config now s)) [
      | inr stays ↦ (ground arith, λ j. ground (arith, eq_iff token j))
      | inl moves ↦
          let (result, rest) = refresh_lem s st e in (ground arith, λ j. ground (arith, rest j))
    ]
  ]

  -- Over a store that keeps the laws, an access returns the session under the token if it is
  -- neither expired nor inactive, with a new expiry where a refresh is due, and nothing
  -- otherwise. Afterwards the store holds under the token what was returned, so a dead session is
  -- deleted, and it holds the same as before under every other token.
  pub get_session_lem :
      (st : store.State)
      → ((get_session store config token now later written st).0
          ≡ ok (accessed config now later written (lookup st token)))
        × ((j : String)
            → lookup (get_session store config token now later written st).1 j ≡ (
                if token == j
                then accessed config now later written (lookup st token)
                else lookup st j))
  unfolding get_session
  get_session_lem st =
      let (result, rest) = check_lem (lookup st token) st refl in
      (ground (arith, get_lem token st), λ j. ground (arith, get_lem token st, rest j))

accessed_live :
    (config : SessionConfig) (now later written : Instant) (x : Option Session) (s : Session)
    → now ≤ later
    → accessed config now later written x ≡ some s
    → (s.active ≡ true) × (now ≤ s.expires_at)
unfolding accessed
accessed_live config now later written none s le e = absurd (ground arith)
accessed_live config now later written (some r) s le e = ground arith

-- Over a store that keeps the laws, if the clock does not run backwards during the access, a
-- session that it returns is active and expires at `now` or later.
pub get_session_live :
    {store : SessionStore} (laws : SessionStoreLaws store) (config : SessionConfig) (token : String)
    (now later written : Instant) (st : store.State) (s : Session)
    → now ≤ later
    → (get_session store config token now later written st).0 ≡ ok (some s)
    → (s.active ≡ true) × (now ≤ s.expires_at)
get_session_live laws config token now later written st s le e =
    accessed_live config now later written (laws.lookup st token) s le
      (cc ((get_session_lem laws config token now later written st).0))
