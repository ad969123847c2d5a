-- ===== src/DeviceAuthorization.antt =====
-- crates/api/src/plugins/device_authorization.rs, over the in-memory store: a device asks for a pair
-- of codes, a user approves or denies the user code, and the device polls for its token. The JSON
-- printer and parser of the stored records are parameters, as are the codes that are drawn. The
-- routes only test that the plugin is enabled, read the request and print the answer.
pub mod Rows
pub mod Flow
pub mod Decision
pub mod Token
use better_auth_rs_worker.Prelude.{
  ℕ, ◌+◌, ◌-◌, ◌*◌, ◌/◌, ℤ, pos, negsuc, sub_ℕ, ltb_ℤ, String, concat, Bool, true, false, not,
  Option, none, some, if◌then◌else◌,
}
use better_auth_rs_worker.Error.{AuthError, AuthResult, ok, err, bad_request, not_found, internal}
use better_auth_rs_worker.Action.{Action, pure, raise, lift, ◌>>=◌, ◌>>◌}
use better_auth_rs_worker.Entity.{Instant, User, Session, Verification}
use better_auth_rs_worker.Memory.{MemoryDatabaseAdapter}
use better_auth_rs_worker.Memory.UserOps.{get_user_by_id}
use better_auth_rs_worker.Memory.VerificationOps.{
  create_verification, get_verification_by_identifier, consume_verification, delete_verification,
}
use better_auth_rs_worker.Session.{SessionConfig, create_session}
use better_auth_rs_worker.Session.InMemory.{memory_store}
use better_auth_rs_worker.Organization.Members.{found_or, guard}

pub record DeviceAuthorizationConfig : Type 0 where
  pub enabled : Bool
  pub verification_uri : String
  pub interval : ℤ
  pub expires_in : ℤ

pub data DeviceStatus : Type 0 where
  pending approved denied : DeviceStatus

pub record DeviceAuthorizationRecord : Type 0 where
  pub device_code : String
  pub user_code : String
  pub client_id : String
  pub scope : Option String
  pub status : DeviceStatus
  pub user_id : Option String
  pub expires_at : Instant
  pub last_polled_at : Option Instant
  pub interval : ℤ

-- `device` is the field `data`.
pub record StoredVerification : Type 0 where
  pub code : String
  pub device : DeviceAuthorizationRecord

pub record DeviceCodeResponse : Type 0 where
  pub device_code : String
  pub user_code : String
  pub verification_uri : String
  pub expires_in : ℤ
  pub interval : ℤ

-- `serde_json::to_string` and `serde_json::from_str` of a stored record.
pub record Codec : Type 0 where
  pub to_string : StoredVerification → AuthResult String
  pub from_str : String → AuthResult StoredVerification

-- An id that the store draws and the clock's reading beside it.
pub record Draw : Type 0 where
  pub id : AuthResult String
  pub at : Instant

-- What the session manager draws for a new session.
pub record SessionDraw : Type 0 where
  pub id : AuthResult String
  pub token : AuthResult String
  pub at : Instant
  pub written : Draw

-- What a call reads: at the lookup of its code, at the second lookup or at the test for the interval,
-- at the write of a record, at the consumption, and for the session.
pub record Readings : Type 0 where
  pub looked_up : Instant
  pub tested : Instant
  pub stored : Draw
  pub consumed : Instant
  pub session : SessionDraw

abbrev pub device_code_identifier : String → String
device_code_identifier device_code = concat "device_code:" device_code

abbrev pub user_code_identifier : String → String
user_code_identifier user_code = concat "user_code:" user_code

-- `now + Duration::seconds(n)`
abbrev pub add_seconds : Instant → ℤ → Instant
add_seconds now (pos n) = now + n * 1000000000
add_seconds now (negsuc n) = now - (n + 1) * 1000000000

-- `(now - last).num_seconds()`
abbrev pub num_seconds : Instant → Instant → ℤ
num_seconds now last = sub_ℕ ((now - last) / 1000000000) ((last - now) / 1000000000)

module _ (codec : Codec) where
  unfoldable pub store_device_authorization :
      String → StoredVerification → Draw → Action MemoryDatabaseAdapter Unit
  store_device_authorization identifier stored draw = do
    value ← lift (codec.to_string stored)
    _ ←
        create_verification
          (record { identifier = identifier; value = value; expires_at = stored.device.expires_at })
          draw.id draw.at
    pure tt

  -- The record of a new pair of codes.
  abbrev pub new_record :
      DeviceAuthorizationConfig
      → String
      → Option String
      → String
      → String
      → Instant
      → StoredVerification
  new_record config client_id scope device_code user_code now = record {
    code = user_code;
    device = record {
      device_code = device_code;
      user_code = user_code;
      client_id = client_id;
      scope = scope;
      status = pending;
      user_id = none;
      expires_at = add_seconds now config.expires_in;
      last_polled_at = none;
      interval = config.interval;
    };
  }

  unfoldable pub create_device_code_core :
      DeviceAuthorizationConfig
      → String
      → Option String
      → String
      → String
      → Instant
      → Draw
      → Draw
      → Action MemoryDatabaseAdapter DeviceCodeResponse
  create_device_code_core config client_id scope device_code user_code now device_draw user_draw =
      do
        let stored : StoredVerification =
            new_record config client_id scope device_code user_code now
        _ ← store_device_authorization (device_code_identifier device_code) stored device_draw
        _ ← store_device_authorization (user_code_identifier user_code) stored user_draw
        pure (record {
          device_code = device_code;
          user_code = user_code;
          verification_uri = config.verification_uri;
          expires_in = config.expires_in;
          interval = config.interval;
        })

  -- Whether the last poll lies less than the interval back.
  abbrev pub too_soon : Option Instant → Instant → ℤ → Bool
  too_soon none now interval = false
  too_soon (some last) now interval = ltb_ℤ (num_seconds now last) interval

  -- The poll of a pending record.
  unfoldable pub poll_pending :
      String → Verification → StoredVerification → Readings → Action MemoryDatabaseAdapter String
  poll_pending identifier verification stored t = do
    _ ←
        guard (not (too_soon stored.device.last_polled_at t.tested stored.device.interval))
          (bad_request "slow_down")
    _ ← delete_verification verification.id
    _ ←
        store_device_authorization identifier
          (record stored { device = record stored.device { last_polled_at = some t.tested } })
          t.stored
    raise (bad_request "authorization_pending")

  module _ (sessions : SessionConfig) where
    -- The poll of an approved record: it is consumed, and its user gets a session.
    unfoldable pub redeem :
        String → Verification → StoredVerification → Readings → Action MemoryDatabaseAdapter String
    redeem identifier verification stored t = do
      consumed ← consume_verification identifier verification.value t.consumed
      _ ← found_or (bad_request "invalid_grant") consumed
      user_id ←
          found_or (internal "Device authorization missing approved user") stored.device.user_id
      user ← get_user_by_id user_id
      user ← found_or (internal "User not found") user
      session ←
          create_session
            (memory_store t.session.written.id t.session.written.id t.session.written.at) sessions
            user.id none none t.session.id t.session.token t.session.at
      pure session.token

    abbrev pub by_status :
        DeviceStatus
        → String
        → Verification
        → StoredVerification
        → Readings
        → Action MemoryDatabaseAdapter String
    by_status pending identifier verification stored t =
        poll_pending identifier verification stored t
    by_status denied identifier verification stored t = raise (bad_request "access_denied")
    by_status approved identifier verification stored t = redeem identifier verification stored t

    -- The answer is the access token.
    unfoldable pub poll_device_token_core : String → Readings → Action MemoryDatabaseAdapter String
    poll_device_token_core device_code t = do
      verification ← get_verification_by_identifier (device_code_identifier device_code) t.looked_up
      verification ← found_or (bad_request "invalid_grant") verification
      stored ← lift (codec.from_str verification.value)
      by_status stored.device.status (device_code_identifier device_code) verification stored t

  -- The record of the device is deleted, where there is one.
  abbrev pub delete_found : Option Verification → Action MemoryDatabaseAdapter Unit
  delete_found none = pure tt
  delete_found (some v) = delete_verification v.id

  -- A decision on a user code: the code is used up, and the record of the device is replaced.
  unfoldable pub decide_device :
      (StoredVerification → StoredVerification)
      → String
      → Readings
      → Action MemoryDatabaseAdapter Unit
  decide_device change user_code t = do
    verification ← get_verification_by_identifier (user_code_identifier user_code) t.looked_up
    verification ← found_or (not_found "Invalid code") verification
    stored ← lift (codec.from_str verification.value)
    device_verification ←
        get_verification_by_identifier (device_code_identifier (change stored).device.device_code)
          t.tested
    _ ← delete_found device_verification
    _ ← delete_verification verification.id
    store_device_authorization (device_code_identifier (change stored).device.device_code)
        (change stored) t.stored

  abbrev pub approve_record : User → StoredVerification → StoredVerification
  approve_record user stored = record stored {
    device = record stored.device { status = approved; user_id = some user.id };
  }

  abbrev pub deny_record : StoredVerification → StoredVerification
  deny_record stored = record stored { device = record stored.device { status = denied } }

  unfoldable pub approve_device_core : User → String → Readings → Action MemoryDatabaseAdapter Unit
  approve_device_core user user_code t = decide_device (approve_record user) user_code t

  unfoldable pub deny_device_core : String → Readings → Action MemoryDatabaseAdapter Unit
  deny_device_core user_code t = decide_device deny_record user_code t
