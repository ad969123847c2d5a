-- ===== src/DeviceAuthorization/Token.antt =====
-- What a poll that is answered with a token requires and does.
use better_auth_rs_worker.Prelude.{
  ◌+◌, String, ◌≡◌, refl, true, not, ◌&&◌, none, some, ◌==◌, eq_iff, arith, inl, inr, Option-cases,
  find, ltb,
}
use better_auth_rs_worker.Error.{AuthError, AuthResult, ok, err, AuthResult-cases}
use better_auth_rs_worker.HashMap.{get, remove, values}
use better_auth_rs_worker.HashMap.Distinct.{find-some}
use better_auth_rs_worker.HashMap.Laws.{get-insert_self}
use better_auth_rs_worker.Entity.{Session, Verification, User}
use better_auth_rs_worker.Entity.Sessions.{from_create}
use better_auth_rs_worker.Memory.{MemoryDatabaseAdapter}
use better_auth_rs_worker.Memory.SessionOps
use better_auth_rs_worker.Memory.UserOps.{get_user_by_id}
use better_auth_rs_worker.Memory.VerificationOps.{
  get_verification_by_identifier, consume_verification, delete_verification, matches, newest,
}
use better_auth_rs_worker.Session.{SessionConfig, create_session}
use better_auth_rs_worker.Session.InMemory.{memory_store}
use better_auth_rs_worker.Organization.Invitations.Keeps.{guard-then, found_or-then, call-then}
use better_auth_rs_worker.DeviceAuthorization.{
  Codec, StoredVerification, DeviceStatus, pending, approved, denied, Readings,
  device_code_identifier, too_soon, poll_pending, redeem, by_status, poll_device_token_core,
  store_device_authorization,
}

module _ (codec : Codec) (sessions : SessionConfig) (device_code : String) (t : Readings)
    (db : MemoryDatabaseAdapter) where
  -- The record that the device polled, and what was done with it.
  pub record IsRedeemed (token : String) (db' : MemoryDatabaseAdapter) : Type 0 where
    pub row : Verification
    pub stored : StoredVerification
    pub user_id : String
    pub user : User
    pub consumed : String × Verification
    pub session : Session
    pub of_device : row.identifier ≡ device_code_identifier device_code
    pub live : ltb t.looked_up row.expires_at ≡ true
    pub readable : codec.from_str row.value ≡ ok stored
    pub was_approved : stored.device.status ≡ approved
    pub by_user : stored.device.user_id ≡ some user_id
    pub known : get user_id db.users ≡ some user
    pub chosen :
        newest (matches row.identifier row.value t.consumed) db.verifications ≡ some consumed
    pub used_up : db'.verifications ≡ remove consumed.0 db.verifications
    pub opened : get token db'.sessions ≡ some session
    pub of_user : session.user_id ≡ user.id

  abbrev Redeems : AuthResult String × MemoryDatabaseAdapter → Type 0
  Redeems (r, db') = (token : String) → r ≡ ok token → IsRedeemed token db'

  refused-Redeems : (e : AuthError) (db' : MemoryDatabaseAdapter) → Redeems (err e, db')
  refused-Redeems e db' token q = absurd (ground arith)

  create_session_ok :
      (user_id : String) (s : MemoryDatabaseAdapter) (session : Session)
      → let r =
          create_session
            (memory_store t.session.written.id t.session.written.id t.session.written.at)
            sessions
            user_id
            none
            none
            t.session.id
            t.session.token
            t.session.at
            s in
        r.0 ≡ ok session
        → (get session.token r.1.sessions ≡ some session)
          × (session.user_id ≡ user_id)
          × (r.1.verifications ≡ s.verifications)
  unfolding create_session SessionOps.create_session from_create
  create_session_ok user_id s session e = elim (AuthResult-cases t.session.id) [
    | inr (f, p) ↦ absurd (ground arith)
    | inl (id, p) ↦ elim (AuthResult-cases t.session.token) [
      | inr (f, q) ↦ absurd (ground arith)
      | inl (token, q) ↦
          let new : Session =
            from_create id token
              (record {
                id = some id;
                token = some token;
                user_id = user_id;
                created_at = some t.session.at;
                expires_at = t.session.at + sessions.expires_in;
                ip_address = none;
                user_agent = none;
                impersonated_by = none;
                active_organization_id = none;
              })
              t.session.at in
          let same : session ≡ new = ground arith in
          (ground (arith, get-insert_self token new s.sessions), ground arith, ground arith)
    ]
  ]

  module _ (row : Verification) (stored : StoredVerification)
      (of_device : row.identifier ≡ device_code_identifier device_code)
      (live : ltb t.looked_up row.expires_at ≡ true)
      (readable : codec.from_str row.value ≡ ok stored) where
    redeem-Redeems :
        stored.device.status ≡ approved
        → Redeems (redeem codec sessions (device_code_identifier device_code) row stored t db)
    unfolding redeem consume_verification get_user_by_id
    redeem-Redeems was_approved =
        let chosen =
          newest (matches (device_code_identifier device_code) row.value t.consumed)
            db.verifications in
        elim (Option-cases chosen) [
          | inl e ↦ rw (redeem, consume_verification, e) (refused-Redeems _ db)
          | inr (c, e) ↦
              let db1 : MemoryDatabaseAdapter = record db {
                verifications = remove c.0 db.verifications;
              } in
              rw (redeem, consume_verification, e)
                (found_or-then Redeems (get c.0 db.verifications) _ _ db1 (refused-Redeems _ db1)
                  λ _ _.
                    found_or-then Redeems stored.device.user_id _ _ db1 (refused-Redeems _ db1)
                      λ user_id by_user.
                        found_or-then Redeems (get user_id db.users) _ _ db1 (refused-Redeems _ db1)
                          λ user known.
                            let (r, db2) =
                              create_session
                                (memory_store t.session.written.id t.session.written.id
                                  t.session.written.at)
                                sessions user.id none none t.session.id t.session.token t.session.at
                                db1 in
                            call-then Redeems r _ db2 (λ f _. refused-Redeems f db2)
                              λ session q token z.
                                let (opened, of_user, kept) =
                                  create_session_ok user.id db1 session q in
                                record {
                                  row = row;
                                  stored = stored;
                                  user_id = user_id;
                                  user = user;
                                  consumed = c;
                                  session = session;
                                  of_device = of_device;
                                  live = live;
                                  readable = readable;
                                  was_approved = was_approved;
                                  by_user = by_user;
                                  known = known;
                                  chosen = rw of_device e;
                                  used_up = kept;
                                  opened = ground arith;
                                  of_user = of_user;
                                })
        ]

    poll_pending-Redeems :
        Redeems (poll_pending codec (device_code_identifier device_code) row stored t db)
    unfolding poll_pending delete_verification
    poll_pending-Redeems =
        guard-then Redeems
          (not (too_soon codec stored.device.last_polled_at t.tested stored.device.interval)) _ _ db
          (refused-Redeems _ db)
          λ _.
            let db1 : MemoryDatabaseAdapter = (delete_verification row.id db).1 in
            let (r, db2) =
              store_device_authorization codec (device_code_identifier device_code)
                (record stored { device = record stored.device { last_polled_at = some t.tested } })
                t.stored db1 in
            call-then Redeems r _ db2 (λ f _. refused-Redeems f db2) (λ _ _. refused-Redeems _ db2)

    by_status-Redeems :
        (status : DeviceStatus)
        → stored.device.status ≡ status
        → Redeems
            (by_status codec sessions status (device_code_identifier device_code) row stored t db)
    by_status-Redeems pending e = poll_pending-Redeems
    by_status-Redeems denied e = refused-Redeems _ db
    by_status-Redeems approved e = redeem-Redeems e

  -- If a poll is answered with a token, then before it the store held a live row under the device
  -- code whose record reads as approved by a stored user. After it the newest live verification
  -- with that row's identifier and value is removed, no other verification is touched, and the
  -- token is that of a stored session of that user.
  pub poll_device_token_core-IsRedeemed :
      (token : String)
      → (poll_device_token_core codec sessions device_code t db).0 ≡ ok token
      → IsRedeemed token (poll_device_token_core codec sessions device_code t db).1
  unfolding poll_device_token_core get_verification_by_identifier
  poll_device_token_core-IsRedeemed token =
      let of_device = λ (v : Verification).
        v.identifier == device_code_identifier device_code && ltb t.looked_up v.expires_at in
      found_or-then Redeems (find of_device (values db.verifications)) _ _ db (refused-Redeems _ db)
        (λ row e.
          let passed : of_device row ≡ true = find-some of_device (values db.verifications) row e in
          call-then Redeems (codec.from_str row.value) _ db (λ f _. refused-Redeems f db)
            λ stored readable.
              by_status-Redeems row stored
                (ground (arith, eq_iff row.identifier (device_code_identifier device_code)))
                (ground arith) readable stored.device.status refl)
        token
