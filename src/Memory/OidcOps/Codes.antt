-- ===== src/Memory/OidcOps/Codes.antt =====
-- Authorization codes are redeemed at most once, before they expire, and as they were issued.
use better_auth_rs_worker.Prelude.{
  ◌==◌, ◌≤◌, ◌<◌, String, ◌≡◌, refl, false, none, some, arith, inl, inr, Option-cases, Bool-cases,
  if◌then◌else◌, ltb,
}
use better_auth_rs_worker.Error.{ok}
use better_auth_rs_worker.HashMap.{get}
use better_auth_rs_worker.HashMap.Keys.{
  UniqueKeys, get-retain, insert-UniqueKeys, remove-UniqueKeys, retain-UniqueKeys,
}
use better_auth_rs_worker.HashMap.Laws.{get-insert, get-insert_self, get-remove, get-remove_self}
use better_auth_rs_worker.Entity.{Instant}
use better_auth_rs_worker.Oidc.Model.{NewAuthorizationCode, NewAccessToken, AuthorizationCodeRecord}
use better_auth_rs_worker.Memory.{MemoryDatabaseAdapter}
use better_auth_rs_worker.Memory.OidcOps.{
  create_authorization_code, consume_authorization_code, delete_expired_authorization_codes,
  create_access_token, code_record,
}

module _ (code : String) (now : Instant) (db : MemoryDatabaseAdapter) where
  -- If a redemption of a code at `now` returned a record, that record was stored under the code
  -- and expires after `now`; afterwards every redemption of the code, at any time, finds nothing
  -- and changes nothing, and every other code is stored as before.
  pub consume_once :
      (r : AuthorizationCodeRecord)
      → (consume_authorization_code code now db).0 ≡ ok (some r)
      → let db' = (consume_authorization_code code now db).1 in
        (get code db.oidc_codes ≡ some r)
        × (now < r.expires_at)
        × ((later : Instant) → consume_authorization_code code later db' ≡ (ok none, db'))
        × ((other : String)
            → get other db'.oidc_codes ≡ (if code == other then none else get other db.oidc_codes))
  unfolding consume_authorization_code
  consume_once r e = (
    ground arith,
    ground arith,
    λ later. ground (arith, get-remove_self code db.oidc_codes),
    λ other. ground (arith, get-remove code other db.oidc_codes),
  )

module _ (code : String) (expires_at : Instant) where
  -- What may happen to the store before the code is redeemed: another code is issued or redeemed, an
  -- access token is stored, and expired codes are swept before the code has expired.
  pub data OtherStep (db : MemoryDatabaseAdapter) : MemoryDatabaseAdapter → Type 0 where
    issues :
        (other : NewAuthorizationCode)
        → (other.code == code) ≡ false
        → OtherStep db (create_authorization_code other db).1
    redeems :
        (other : String) (now : Instant)
        → (other == code) ≡ false
        → OtherStep db (consume_authorization_code other now db).1
    stores_token : (token : NewAccessToken) → OtherStep db (create_access_token token db).1
    sweeps :
        (swept : Instant)
        → swept < expires_at
        → OtherStep db (delete_expired_authorization_codes swept db).1

  pub data OtherSteps (db : MemoryDatabaseAdapter) : MemoryDatabaseAdapter → Type 0 where
    start : OtherSteps db db
    next :
        {db' db'' : MemoryDatabaseAdapter}
        → OtherSteps db db'
        → OtherStep db' db''
        → OtherSteps db db''

  module _ (r : AuthorizationCodeRecord) (until : r.expires_at ≡ expires_at) where
    abbrev Holds : MemoryDatabaseAdapter → Type 0
    Holds db = UniqueKeys db.oidc_codes × (get code db.oidc_codes ≡ some r)

    OtherStep-Holds : {db db' : MemoryDatabaseAdapter} → OtherStep db db' → Holds db → Holds db'
    unfolding create_authorization_code consume_authorization_code create_access_token
        delete_expired_authorization_codes
    OtherStep-Holds {db} (issues other ne) h = (
      insert-UniqueKeys other.code (code_record other) db.oidc_codes h.0,
      ground (arith, get-insert other.code code (code_record other) db.oidc_codes),
    )
    OtherStep-Holds {db} (redeems other now ne) h = elim (Option-cases (get other db.oidc_codes)) [
      | inl e ↦ rw (consume_authorization_code, e) h
      | inr (x, e) ↦ elim (Bool-cases (ltb now x.expires_at)) [
        | inr l ↦ rw (consume_authorization_code, e, l) h
        | inl l ↦
            rw (consume_authorization_code, e, l)
              (
                remove-UniqueKeys other db.oidc_codes h.0,
                ground (arith, get-remove other code db.oidc_codes),
              )
      ]
    ]
    OtherStep-Holds (stores_token token) h = h
    OtherStep-Holds {db} (sweeps swept l) h =
        let live = λ (x : AuthorizationCodeRecord). ltb swept x.expires_at in
        (
          retain-UniqueKeys live db.oidc_codes h.0,
          ground (arith, get-retain live code db.oidc_codes h.0),
        )

    OtherSteps-Holds : {db db' : MemoryDatabaseAdapter} → OtherSteps db db' → Holds db → Holds db'
    OtherSteps-Holds start h = h
    OtherSteps-Holds (next steps step) h = OtherStep-Holds step (OtherSteps-Holds steps h)

-- If the codes are stored once, then after a code was issued and any run of issues and
-- redemptions of other codes, of stored access tokens and of sweeps before its expiry, a
-- redemption of the code returns exactly the client, subject, redirect URI, scope, challenge,
-- method, nonce and times of its issue if `now` is before its expiry, and nothing otherwise.
pub consume-create :
    (input : NewAuthorizationCode) (now : Instant) (db db' : MemoryDatabaseAdapter)
    → UniqueKeys db.oidc_codes
    → OtherSteps input.code input.expires_at (create_authorization_code input db).1 db'
    → (consume_authorization_code input.code now db').0
      ≡ ok (
          if ltb now input.expires_at
          then some (record {
            code = input.code;
            client_id = input.client_id;
            subject = input.subject;
            redirect_uri = input.redirect_uri;
            scope = input.scope;
            code_challenge = input.code_challenge;
            code_challenge_method = input.code_challenge_method;
            nonce = input.nonce;
            auth_time = input.auth_time;
            expires_at = input.expires_at;
          })
          else none)
unfolding consume_authorization_code create_authorization_code
consume-create input now db db' unique steps =
    let (_, held) = OtherSteps-Holds input.code input.expires_at (code_record input) refl steps (
      insert-UniqueKeys input.code (code_record input) db.oidc_codes unique,
      get-insert_self input.code (code_record input) db.oidc_codes,
    ) in
    ground arith

-- In a table of codes with unique keys, a sweep of the expired codes does not change what a
-- redemption at the time of the sweep or later returns.
pub consume-sweep :
    (code : String) (swept now : Instant) (db : MemoryDatabaseAdapter)
    → UniqueKeys db.oidc_codes
    → swept ≤ now
    → (consume_authorization_code code now (delete_expired_authorization_codes swept db).1).0
      ≡ (consume_authorization_code code now db).0
unfolding consume_authorization_code delete_expired_authorization_codes
consume-sweep code swept now db u le = ground (
  arith,
  get-retain (λ (r : AuthorizationCodeRecord). ltb swept r.expires_at) code db.oidc_codes u,
)
