-- ===== src/Memory/VerificationOps/Consume.antt =====
-- Redeeming a verification: the newest live match leaves the table, and nothing else does.
use better_auth_rs_worker.Prelude.{
  ◌≤◌, ◌+◌, String, ◌≡◌, refl, Bool, true, none, some, List, [], ◌∷◌, arith, ◌==◌, eq_iff,
  if◌then◌else◌, inl, inr, Option-cases, Bool-cases, All, filter, length, find, ap,
}
use better_auth_rs_worker.Error.{ok}
use better_auth_rs_worker.HashMap.{HashMap, get, remove, values}
use better_auth_rs_worker.HashMap.Keys.{UniqueKeys, remove_absent, remove-UniqueKeys}
use better_auth_rs_worker.HashMap.Distinct.{any-values, find-none}
use better_auth_rs_worker.HashMap.Laws.{get-remove}
use better_auth_rs_worker.Entity.{Instant, Verification}
use better_auth_rs_worker.Memory.{MemoryDatabaseAdapter}
use better_auth_rs_worker.Memory.VerificationOps.{
  consume_verification, get_verification, newest, matches,
}

All-later :
    (y v : Verification) (xs : List Verification)
    → y.created_at ≤ v.created_at
    → All (λ w. w.created_at ≤ y.created_at) xs
    → All (λ w. w.created_at ≤ v.created_at) xs
All-later y v [] le a = tt
All-later y v (x ∷ xs) le a = (omega (arith, le, a.0), All-later y v xs le a.1)

module _ (p : Verification → Bool) where
  pub newest-get :
      (m : HashMap Verification) (id : String) (v : Verification)
      → UniqueKeys m
      → newest p m ≡ some (id, v)
      → (get id m ≡ some v) × (p v ≡ true)
  unfolding newest get
  newest-get [] id v u e = absurd (ground arith)
  newest-get ((j, w) ∷ m) id v u e = elim (Option-cases (newest p m)) [
    | inl none_left ↦ ground (arith, eq_iff j id)
    | inr ((i, x), e') ↦ ground (arith, newest-get m i x u.1, eq_iff j i, eq_iff j id)
  ]

  pub newest-none : (m : HashMap Verification) → newest p m ≡ none → find p (values m) ≡ none
  unfolding newest
  newest-none [] e = refl
  newest-none ((j, w) ∷ m) e = ground (arith, newest-none m)

  newest-filter : (m : HashMap Verification) → newest p m ≡ none → filter p (values m) ≡ []
  unfolding newest
  newest-filter [] e = refl
  newest-filter ((j, w) ∷ m) e = ground (arith, newest-filter m)

  newest_latest :
      (m : HashMap Verification) (id : String) (v : Verification)
      → newest p m ≡ some (id, v)
      → All (λ w. w.created_at ≤ v.created_at) (filter p (values m))
  unfolding newest
  newest_latest [] id v e = tt
  newest_latest ((j, x) ∷ m) id v e = elim (Option-cases (newest p m)) [
    | inl none_left ↦ elim (Bool-cases (p x)) [
      | inl q ↦ rw (q, newest-filter m none_left) (ground arith, tt)
      | inr q ↦ absurd (ground arith)
    ]
    | inr ((i, y), e') ↦ elim (Bool-cases (p x)) [
      | inl q ↦ rw q (
        ground arith,
        All-later y v (filter p (values m)) (ground arith) (newest_latest m i y e'),
      )
      | inr q ↦ rw q (All-later y v (filter p (values m)) (ground arith) (newest_latest m i y e'))
    ]
  ]

  matching-remove :
      (m : HashMap Verification) (id : String) (v : Verification)
      → UniqueKeys m
      → get id m ≡ some v
      → p v ≡ true
      → length (filter p (values (remove id m))) + 1 ≡ length (filter p (values m))
  unfolding get remove
  matching-remove [] id v u e q = absurd (ground arith)
  matching-remove ((j, w) ∷ m) id v u e q =
      ground (arith, matching-remove m id v u.1, remove_absent id m, eq_iff j id)

-- In a table with unique keys, a verification that a redemption returns matches the identifier
-- and the value and is live, and no match is newer; it was stored under a key that afterwards is
-- empty while all other keys are as before, and one match fewer is left.
pub consume_verification_newest :
    (identifier value : String) (now : Instant) (db : MemoryDatabaseAdapter) (v : Verification)
    → UniqueKeys db.verifications
    → (consume_verification identifier value now db).0 ≡ ok (some v)
    → let p = matches identifier value now in
      let db' = (consume_verification identifier value now db).1 in
      (p v ≡ true)
      × All (λ w. w.created_at ≤ v.created_at) (filter p (values db.verifications))
      × (length (filter p (values db'.verifications)) + 1
          ≡ length (filter p (values db.verifications)))
      × ((id : String) × (get id db.verifications ≡ some v)
          × ((k : String)
              → get k db'.verifications ≡ (if id == k then none else get k db.verifications)))
unfolding consume_verification
consume_verification_newest identifier value now db v u e =
    let p = matches identifier value now in
    elim (Option-cases (newest p db.verifications)) [
      | inl f ↦ absurd (ground arith)
      | inr ((id, w), f) ↦
          let (stored, holds) = newest-get p db.verifications id w u f in
          let same : w ≡ v = ground arith in
          (
            ground arith,
            rw (← same) (newest_latest p db.verifications id w f),
            ground (arith, matching-remove p db.verifications id w u stored holds),
            (id, ground arith, λ k. ground (arith, get-remove id k db.verifications)),
          )
    ]

-- Where a lookup by identifier and value finds nothing, a redemption finds nothing either and the
-- table stays as it is.
pub consume_verification-none :
    (identifier value : String) (now : Instant) (db : MemoryDatabaseAdapter)
    → UniqueKeys db.verifications
    → (get_verification identifier value now db).0 ≡ ok none
    → consume_verification identifier value now db ≡ (ok none, db)
unfolding consume_verification get_verification
consume_verification-none identifier value now db u e =
    let p = matches identifier value now in
    elim (Option-cases (newest p db.verifications)) [
      | inl f ↦ ground arith
      | inr ((id, w), f) ↦
          let (stored, holds) = newest-get p db.verifications id w u f in
          absurd (
            ground (
              arith,
              any-values p db.verifications id w
                  (find-none p (values db.verifications) (ground arith)) stored,
            ))
    ]

consume_verification-UniqueKeys :
    (identifier value : String) (now : Instant) (db : MemoryDatabaseAdapter)
    → UniqueKeys db.verifications
    → UniqueKeys (consume_verification identifier value now db).1.verifications
unfolding consume_verification
consume_verification-UniqueKeys identifier value now db u =
    elim (Option-cases (newest (matches identifier value now) db.verifications)) [
      | inl f ↦ rw (f, consume_verification) u
      | inr ((id, w), f) ↦ rw (f, consume_verification) (remove-UniqueKeys id db.verifications u)
    ]

-- What no longer matches will not match later.
no_match_later :
    (identifier value : String) (now later : Instant) (vs : List Verification)
    → now ≤ later
    → length (filter (matches identifier value now) vs) ≡ 0
    → find (matches identifier value later) vs ≡ none
no_match_later identifier value now later [] le e = refl
no_match_later identifier value now later (v ∷ vs) le e =
    ground (arith, no_match_later identifier value now later vs le)

-- In a table with unique keys and at most one live match, once a redemption has returned a
-- verification, a redemption with the same identifier and value at that time or later finds
-- nothing and changes nothing.
pub consume_verification_once :
    (identifier value : String) (now later : Instant) (db : MemoryDatabaseAdapter)
    (v : Verification)
    → UniqueKeys db.verifications
    → length (filter (matches identifier value now) (values db.verifications)) ≤ 1
    → now ≤ later
    → (consume_verification identifier value now db).0 ≡ ok (some v)
    → let db' = (consume_verification identifier value now db).1 in
      consume_verification identifier value later db' ≡ (ok none, db')
consume_verification_once identifier value now later db v u few le e =
    let redeemed = consume_verification_newest identifier value now db v u e in
    let db' = (consume_verification identifier value now db).1 in
    consume_verification-none identifier value later db'
      (consume_verification-UniqueKeys identifier value now db u)
      (unfold get_verification in
        ap ok (
          no_match_later identifier value now later (values db'.verifications) le
            (omega (arith, redeemed.2))))
