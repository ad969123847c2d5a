-- ===== src/Session/Revocation.antt =====
-- What revocations remove, and what they count.
use better_auth_rs_worker.Prelude.{
  ℕ, ◌+◌, String, ◌≡◌, refl, Bool, true, false, not, ◌&&◌, Option, none, some, List, [], ◌∷◌, arith,
  ◌==◌, eq_iff, if◌then◌else◌, is_some, inl, inr, Option-cases, Bool-cases, filter, any, length,
  All,
}
use better_auth_rs_worker.Error.{ok}
use better_auth_rs_worker.Entity.{Instant, Session}
use better_auth_rs_worker.Session.{
  SessionStore, SessionConfig, get_session, is_live, revoke_session, list_user_sessions,
  delete_session, revoke_others, revoke_other_user_sessions,
}
use better_auth_rs_worker.Session.Laws.{SessionStoreLaws}
use better_auth_rs_worker.Session.Access.{accessed, get_session_lem}

-- The user's live session under the token, seen in the store.
abbrev pub owned_live : String → Instant → Option Session → Bool
owned_live user_id now none = false
owned_live user_id now (some s) = s.user_id == user_id && is_live now s

abbrev pub live? : Instant → Option Session → Bool
live? now none = false
live? now (some s) = is_live now s

abbrev pub has_token : String → List Session → Bool
has_token t = any (λ s. s.token == t)

module _ {store : SessionStore} (laws : SessionStoreLaws store) (config : SessionConfig) where
  open laws use {
    lookup, listed, Valid, get_lem, delete_ok, lookup-delete, list_lem, listed_sound,
    listed_complete,
  }

  -- Over a store that keeps the laws, revoking a token answers whether an access would have
  -- returned a session; afterwards nothing is stored under the token, and the same as before
  -- under every other token.
  pub revoke_session_lem :
      (token : String) (now later written : Instant) (st : store.State)
      → ((revoke_session store config token now later written st).0
          ≡ ok (is_some (accessed config now later written (lookup st token))))
        × ((j : String)
            → lookup (revoke_session store config token now later written st).1 j
              ≡ (if token == j then none else lookup st j))
  unfolding revoke_session delete_session
  revoke_session_lem token now later written st =
      let (result, rest) = get_session_lem laws config token now later written st in
      let st' = (get_session store config token now later written st).1 in
      elim (Option-cases (accessed config now later written (lookup st token))) [
        | inl e ↦ (ground arith, λ j. ground (arith, rest j))
        | inr (s, e) ↦ (
          ground (arith, delete_ok token st'),
          λ j. ground (arith, rest j, delete_ok token st', lookup-delete token st' j),
        )
      ]

  -- The loop deletes the sessions of the list but the current one, and counts them.
  revoke_others_lem :
      (current : String) (count : ℕ) (l : List Session) (st : store.State)
      → ((revoke_others store config current count l st).0
          ≡ ok (count + length (filter (λ s. not (s.token == current)) l)))
        × ((j : String)
            → lookup (revoke_others store config current count l st).1 j
              ≡ (if has_token j l && not (j == current) then none else lookup st j))
  unfolding revoke_others delete_session
  revoke_others_lem current count [] st = (ground arith, λ j. refl)
  revoke_others_lem current count (s ∷ rest) st = elim (Bool-cases (s.token == current)) [
    | inl e ↦
        let (result, left) = revoke_others_lem current count rest st in
        (
          ground arith,
          λ j. ground (arith, left j, eq_iff s.token current, eq_iff s.token j, eq_iff j current),
        )
    | inr e ↦
        let st' = (store.delete_session s.token st).1 in
        let (result, left) = revoke_others_lem current (count + 1) rest st' in
        (
          ground (arith, delete_ok s.token st),
          λ j. ground (
            arith,
            left j,
            delete_ok s.token st,
            lookup-delete s.token st j,
            eq_iff s.token j,
            eq_iff j current,
          ),
        )
  ]

  filter_listed :
      (j : String) (user_id : String) (now : Instant) (st : store.State) (l : List Session)
      → All (λ s. (lookup st s.token ≡ some s) × (s.user_id ≡ user_id) × (s.active ≡ true)) l
      → has_token j (filter (is_live now) l) ≡ (has_token j l && live? now (lookup st j))
  filter_listed j user_id now st [] a = ground arith
  filter_listed j user_id now st (s ∷ l) a =
      ground (arith, filter_listed j user_id now st l a.1, eq_iff s.token j)

  has_token_sound :
      (j : String) (user_id : String) (st : store.State) (l : List Session)
      → All (λ s. (lookup st s.token ≡ some s) × (s.user_id ≡ user_id) × (s.active ≡ true)) l
      → has_token j l ≡ true
      → (s : Session) × (lookup st j ≡ some s) × (s.user_id ≡ user_id) × (s.active ≡ true)
  has_token_sound j user_id st [] a h = absurd (ground arith)
  has_token_sound j user_id st (s ∷ l) a h = elim (Bool-cases (s.token == j)) [
    | inl e ↦ (s, ground (arith, eq_iff s.token j), ground arith, ground arith)
    | inr e ↦ has_token_sound j user_id st l a.1 (ground arith)
  ]

  listed_live :
      (j : String) (user_id : String) (now : Instant) (st : store.State)
      → Valid st
      → has_token j (filter (is_live now) (listed user_id st))
        ≡ owned_live user_id now (lookup st j)
  listed_live j user_id now st v =
      let l = listed user_id st in
      elim (Bool-cases (has_token j l)) [
        | inl e ↦
            let (s, p, q, r) = has_token_sound j user_id st l (listed_sound user_id st v) e in
            ground (
              arith,
              filter_listed j user_id now st l (listed_sound user_id st v),
              eq_iff s.user_id user_id,
            )
        | inr e ↦ elim (Option-cases (lookup st j)) [
          | inl p ↦ ground (arith, filter_listed j user_id now st l (listed_sound user_id st v))
          | inr (s, p) ↦ ground (
            arith,
            filter_listed j user_id now st l (listed_sound user_id st v),
            eq_iff s.user_id user_id,
            listed_complete user_id st j s v p,
          )
        ]
      ]

  -- Over a store that keeps the laws and is valid, revoking the other sessions of a user removes
  -- exactly the user's live sessions whose token is not the current one, leaves every other token
  -- as it was, and returns the number of listed live sessions with another token.
  pub revoke_other_user_sessions_lem :
      (user_id current : String) (now : Instant) (st : store.State)
      → Valid st
      → ((revoke_other_user_sessions store config user_id current now st).0
          ≡ ok (
              length (
                filter (λ s. not (s.token == current)) (filter (is_live now) (listed user_id st)))))
        × ((j : String)
            → lookup (revoke_other_user_sessions store config user_id current now st).1 j ≡ (
                if owned_live user_id now (lookup st j) && not (j == current)
                then none
                else lookup st j))
  unfolding revoke_other_user_sessions list_user_sessions
  revoke_other_user_sessions_lem user_id current now st v =
      let l = filter (is_live now) (listed user_id st) in
      let (result, left) = revoke_others_lem current 0 l st in
      (
        ground (arith, list_lem user_id st),
        λ j. ground (arith, list_lem user_id st, left j, listed_live j user_id now st v),
      )
