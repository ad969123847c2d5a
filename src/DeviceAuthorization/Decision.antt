-- ===== src/DeviceAuthorization/Decision.antt =====
-- What the user's decision means to the device that polls next, and to the user code.
use better_auth_rs_worker.Prelude.{
  ℕ, String, ◌≡◌, refl, ap, ◌∙◌, true, none, some, [], ◌∷◌, ◌==◌, eq_refl, arith, find, ltb, inl,
  inr, Option-cases,
}
use better_auth_rs_worker.Error.{ok, err, bad_request, not_found}
use better_auth_rs_worker.HashMap.{HashMap, get, values}
use better_auth_rs_worker.HashMap.Keys.{UniqueKeys, insert-UniqueKeys, remove-UniqueKeys}
use better_auth_rs_worker.Entity.{User, Verification}
use better_auth_rs_worker.Entity.Sessions
use better_auth_rs_worker.Entity.Verifications.{from_create}
use better_auth_rs_worker.Memory.{MemoryDatabaseAdapter}
use better_auth_rs_worker.Memory.SessionOps
use better_auth_rs_worker.Memory.UserOps.{get_user_by_id}
use better_auth_rs_worker.Memory.VerificationOps.{consume_verification, matches, newest}
use better_auth_rs_worker.Memory.VerificationOps.Consume.{newest-get, newest-none}
use better_auth_rs_worker.Session.{SessionConfig, create_session}
use better_auth_rs_worker.DeviceAuthorization.{
  Codec, StoredVerification, Readings, device_code_identifier, redeem, poll_device_token_core,
  approve_device_core, deny_device_core, approve_record, deny_record,
}
use better_auth_rs_worker.DeviceAuthorization.Rows.{find-filter_two}
use better_auth_rs_worker.DeviceAuthorization.Flow.{
  IsOpen, has_identifier, rows, new_row, decided, cleared, decide_device_lem, device_rows_decided,
  poll_decided, decide_again,
}

-- The only row under its identifier is what a redemption chooses.
newest-rows :
    (identifier : String) (now : ℕ) (v : Verification) (m : HashMap Verification)
    → UniqueKeys m
    → rows identifier m ≡ v ∷ []
    → ltb now v.expires_at ≡ true
    → (id : String) × (w : Verification) × (newest (matches identifier v.value now) m
        ≡ some (id, w))
      × (get id m ≡ some w)
newest-rows identifier now v m u e l =
    let p = matches identifier v.value now in
    let found : find p (values m) ≡ some v = ground (
      arith,
      eq_refl v.value,
      find-filter_two (has_identifier identifier) (λ x. x.value == v.value)
          (λ x. ltb now x.expires_at) (values m),
    ) in
    elim (Option-cases (newest p m)) [
      | inl f ↦ absurd (ground (arith, newest-none p m f))
      | inr ((id, w), f) ↦ (id, w, f, (newest-get p m id w u f).0)
    ]

-- An approved record whose row is live and whose user is stored gives a token.
redeem_ok :
    (codec : Codec) (sessions : SessionConfig) (identifier : String) (v : Verification)
    (stored : StoredVerification) (t : Readings) (user_id : String) (user : User)
    (session_id token : String) (db : MemoryDatabaseAdapter)
    → UniqueKeys db.verifications
    → rows identifier db.verifications ≡ v ∷ []
    → ltb t.consumed v.expires_at ≡ true
    → stored.device.user_id ≡ some user_id
    → get user_id db.users ≡ some user
    → t.session.id ≡ ok session_id
    → t.session.token ≡ ok token
    → (redeem codec sessions identifier v stored t db).0 ≡ ok token
unfolding redeem consume_verification get_user_by_id create_session SessionOps.create_session
    Sessions.from_create
redeem_ok codec sessions identifier v stored t user_id user session_id token db u e l by known id
      drawn =
    let (k, w, chosen, at) = newest-rows identifier t.consumed v db.verifications u e l in
    rw (redeem, consume_verification, chosen, at, by, known, id, drawn) refl

module _ (codec : Codec) (sessions : SessionConfig) (device_code user_code : String)
    (stored : StoredVerification) (d r : Verification) (db : MemoryDatabaseAdapter)
    (h : IsOpen codec device_code user_code stored d r db.verifications) (t : Readings)
    (user_live : ltb t.looked_up r.expires_at ≡ true)
    (device_live : ltb t.tested d.expires_at ≡ true) (new_id : String)
    (drawn : t.stored.id ≡ ok new_id) (fresh : get new_id db.verifications ≡ none) (t' : Readings)
    (polled_live : ltb t'.looked_up stored.device.expires_at ≡ true) where
  approve_device_core_lem :
      (user found : User) (value session_id token : String)
      → codec.to_string (approve_record codec user stored) ≡ ok value
      → codec.from_str value ≡ ok (approve_record codec user stored)
      → get user.id db.users ≡ some found
      → ltb t'.consumed stored.device.expires_at ≡ true
      → t'.session.id ≡ ok session_id
      → t'.session.token ≡ ok token
      → let (r, db') = approve_device_core codec user user_code t db in
        (r ≡ ok tt)
        × ((poll_device_token_core codec sessions device_code t' db').0 ≡ ok token)
        × (approve_device_core codec user user_code t' db' ≡ (err (not_found "Invalid code"), db'))
        × (deny_device_core codec user_code t' db' ≡ (err (not_found "Invalid code"), db'))
  unfolding approve_device_core deny_device_core from_create
  approve_device_core_lem user found value session_id token printed reads_back known live id q =
      let step =
        decide_device_lem codec device_code user_code stored d r db h t user_live device_live new_id
          drawn fresh (approve_record codec user) refl value printed reads_back in
      let after =
        decided codec device_code user_code stored d r db h t user_live device_live new_id drawn
          fresh (approve_record codec user) refl value printed reads_back in
      let row =
        new_row codec device_code user_code stored d r db h t user_live device_live new_id drawn
          fresh (approve_record codec user) refl value printed reads_back in
      let unique : UniqueKeys after.verifications =
        insert-UniqueKeys new_id row (cleared codec device_code user_code stored d r db h)
          (remove-UniqueKeys r.id _ (remove-UniqueKeys d.id db.verifications h.unique)) in
      rw step (
        refl,
        ap (λ a. a.0)
              (poll_decided codec device_code user_code stored d r db h t user_live device_live
                new_id drawn fresh (approve_record codec user) refl value printed reads_back
                sessions t' polled_live)
            ∙ redeem_ok codec sessions (device_code_identifier device_code) row
                (approve_record codec user stored) t' user.id found session_id token after unique
                (device_rows_decided codec device_code user_code stored d r db h t user_live
                  device_live new_id drawn fresh (approve_record codec user) refl value printed
                  reads_back)
                live refl known id q,
        decide_again codec device_code user_code stored d r db h t user_live device_live new_id
            drawn fresh (approve_record codec user) refl value printed reads_back
            (approve_record codec user) t',
        decide_again codec device_code user_code stored d r db h t user_live device_live new_id
            drawn fresh (approve_record codec user) refl value printed reads_back
            (deny_record codec) t',
      )

  deny_device_core_lem :
      (user : User) (value : String)
      → codec.to_string (deny_record codec stored) ≡ ok value
      → codec.from_str value ≡ ok (deny_record codec stored)
      → let (r, db') = deny_device_core codec user_code t db in
        (r ≡ ok tt)
        × ((poll_device_token_core codec sessions device_code t' db').0
            ≡ err (bad_request "access_denied"))
        × (approve_device_core codec user user_code t' db' ≡ (err (not_found "Invalid code"), db'))
        × (deny_device_core codec user_code t' db' ≡ (err (not_found "Invalid code"), db'))
  unfolding approve_device_core deny_device_core
  deny_device_core_lem user value printed reads_back =
      let step =
        decide_device_lem codec device_code user_code stored d r db h t user_live device_live new_id
          drawn fresh (deny_record codec) refl value printed reads_back in
      rw step (
        refl,
        ap (λ a. a.0)
            (poll_decided codec device_code user_code stored d r db h t user_live device_live new_id
              drawn fresh (deny_record codec) refl value printed reads_back sessions t'
              polled_live),
        decide_again codec device_code user_code stored d r db h t user_live device_live new_id
            drawn fresh (deny_record codec) refl value printed reads_back
            (approve_record codec user) t',
        decide_again codec device_code user_code stored d r db h t user_live device_live new_id
            drawn fresh (deny_record codec) refl value printed reads_back (deny_record codec) t',
      )

  -- If the rows of a device code and of its user code hold the same record and are alone under
  -- their identifiers, both are live at the decision, the new row's id is free, and the JSON of
  -- the decided records prints and reads back, then an approval and a denial both succeed. After
  -- an approval by a stored user, a poll before the record's expiry is answered with the token
  -- that is drawn for the session; after a denial it is refused with `access_denied`. After
  -- either, a second approval or denial of the user code finds no code and changes nothing.
  pub approve-deny-poll :
      (user found : User) (approval denial session_id token : String)
      → codec.to_string (approve_record codec user stored) ≡ ok approval
      → codec.from_str approval ≡ ok (approve_record codec user stored)
      → codec.to_string (deny_record codec stored) ≡ ok denial
      → codec.from_str denial ≡ ok (deny_record codec stored)
      → get user.id db.users ≡ some found
      → ltb t'.consumed stored.device.expires_at ≡ true
      → t'.session.id ≡ ok session_id
      → t'.session.token ≡ ok token
      → let (r, db') = approve_device_core codec user user_code t db in
        let (r', db'') = deny_device_core codec user_code t db in
        (r ≡ ok tt)
        × ((poll_device_token_core codec sessions device_code t' db').0 ≡ ok token)
        × (approve_device_core codec user user_code t' db' ≡ (err (not_found "Invalid code"), db'))
        × (deny_device_core codec user_code t' db' ≡ (err (not_found "Invalid code"), db'))
        × (r' ≡ ok tt)
        × ((poll_device_token_core codec sessions device_code t' db'').0
            ≡ err (bad_request "access_denied"))
        × (approve_device_core codec user user_code t' db''
            ≡ (err (not_found "Invalid code"), db''))
        × (deny_device_core codec user_code t' db'' ≡ (err (not_found "Invalid code"), db''))
  approve-deny-poll user found approval denial session_id token p p' q q' known live id drawn' =
      let (a, b, c, e) =
        approve_device_core_lem user found approval session_id token p p' known live id drawn' in
      let (a', b', c', e') = deny_device_core_lem user denial q q' in (a, b, c, e, a', b', c', e')
