-- ===== src/Examples/Devices.antt =====
-- Runs of the device authorization: a user approves the codes of a device, and it polls its token.
use better_auth_rs_worker.Prelude.{
  ◌≡◌, refl, pos, String, ◌==◌, true, none, some, [], ◌∷◌, if◌then◌else◌,
}
use better_auth_rs_worker.Error.{ok, err, bad_request, not_found}
use better_auth_rs_worker.HashMap.{get, insert, remove}
use better_auth_rs_worker.Entity.{Instant, User, Verification}
use better_auth_rs_worker.Entity.Users.{from_create}
use better_auth_rs_worker.Memory.{MemoryDatabaseAdapter, new}
use better_auth_rs_worker.Memory.SessionOps
use better_auth_rs_worker.Memory.UserOps.{get_user_by_id}
use better_auth_rs_worker.Memory.VerificationOps.{
  get_verification_by_identifier, consume_verification, delete_verification, create_verification,
  newest,
}
use better_auth_rs_worker.Entity.Sessions
use better_auth_rs_worker.Entity.Verifications
use better_auth_rs_worker.Session.{SessionConfig, create_session}
use better_auth_rs_worker.DeviceAuthorization.{
  redeem, decide_device, store_device_authorization, Codec, StoredVerification, DeviceStatus,
  pending, approved, denied, Readings, approve_device_core, deny_device_core,
  poll_device_token_core,
}
use better_auth_rs_worker.DeviceAuthorization.Flow.{IsOpen}
use better_auth_rs_worker.DeviceAuthorization.Decision.{approve-deny-poll}
use better_auth_rs_worker.DeviceAuthorization.Token.{IsRedeemed, poll_device_token_core-IsRedeemed}

abbrev alice : User
alice =
    from_create "u1"
      (record {
        id = none;
        email = some "alice@example.com";
        name = none;
        image = none;
        email_verified = none;
        password = none;
        username = none;
        display_username = none;
        role = none;
        metadata = none;
      })
      1

abbrev waiting : StoredVerification
waiting = record {
  code = "UC";
  device = record {
    device_code = "DC";
    user_code = "UC";
    client_id = "tv";
    scope = none;
    status = pending;
    user_id = none;
    expires_at = 100;
    last_polled_at = none;
    interval = pos 5;
  };
}

-- The records by their status, in place of JSON.
abbrev status_text : DeviceStatus → String
status_text pending = "pending"
status_text approved = "approved"
status_text denied = "denied"

abbrev by_text : Codec
by_text = record {
  to_string = λ x. ok (status_text x.device.status);
  from_str = λ s.
      if s == "pending"
      then ok waiting
      else if s == "denied"
      then ok (record waiting { device = record waiting.device { status = denied } })
      else ok (record waiting {
        device = record waiting.device { status = approved; user_id = some "u1" };
      });
}

abbrev row_of : String → String → Verification
row_of id identifier = record {
  id = id;
  identifier = identifier;
  value = "pending";
  expires_at = 100;
  created_at = 1;
  updated_at = 1;
}

abbrev issued : MemoryDatabaseAdapter
issued = record new {
  users = ("u1", alice) ∷ [];
  verifications = ("v1", row_of "v1" "device_code:DC") ∷ ("v2", row_of "v2" "user_code:UC") ∷ [];
}

abbrev a_week : SessionConfig
a_week = record {
  expires_in = 1000;
  update_age = none;
  disable_session_refresh = true;
  fresh_age = none;
}

abbrev readings_at : Instant → Readings
readings_at now = record {
  looked_up = now;
  tested = now;
  stored = record { id = ok "v3"; at = now };
  consumed = now;
  session = record {
    id = ok "s1";
    token = ok "token";
    at = now;
    written = record { id = ok "s2"; at = now };
  };
}

issued-IsOpen :
    IsOpen by_text "DC" "UC" waiting
      (row_of "v1" "device_code:DC")
      (row_of "v2" "user_code:UC")
      issued.verifications
unfolding get
issued-IsOpen = record {
  unique = (refl, (refl, tt));
  device_row = refl;
  device_key = refl;
  user_row = refl;
  user_key = refl;
  of_device = refl;
  of_user = refl;
  readable = refl;
  codes = refl;
}

approve-deny-poll_example :
    let (r, db') = approve_device_core by_text alice "UC" (readings_at 10) issued in
    let (r', db'') = deny_device_core by_text "UC" (readings_at 10) issued in
    (r ≡ ok tt)
    × ((poll_device_token_core by_text a_week "DC" (readings_at 20) db').0 ≡ ok "token")
    × (approve_device_core by_text alice "UC" (readings_at 20) db'
        ≡ (err (not_found "Invalid code"), db'))
    × (deny_device_core by_text "UC" (readings_at 20) db' ≡ (err (not_found "Invalid code"), db'))
    × (r' ≡ ok tt)
    × ((poll_device_token_core by_text a_week "DC" (readings_at 20) db'').0
        ≡ err (bad_request "access_denied"))
    × (approve_device_core by_text alice "UC" (readings_at 20) db''
        ≡ (err (not_found "Invalid code"), db''))
    × (deny_device_core by_text "UC" (readings_at 20) db'' ≡ (err (not_found "Invalid code"), db''))
unfolding get from_create
approve-deny-poll_example =
    approve-deny-poll by_text a_week "DC" "UC" waiting (row_of "v1" "device_code:DC")
      (row_of "v2" "user_code:UC") issued issued-IsOpen (readings_at 10) refl refl "v3" refl refl
      (readings_at 20) refl alice alice "approved" "denied" "s1" "token" refl refl refl refl refl
      refl refl refl

abbrev approved_store : MemoryDatabaseAdapter
approved_store = (approve_device_core by_text alice "UC" (readings_at 10) issued).1

approved_run :
    (poll_device_token_core by_text a_week "DC" (readings_at 20) approved_store).0 ≡ ok "token"
unfolding get insert remove poll_device_token_core approve_device_core decide_device redeem
    store_device_authorization get_verification_by_identifier delete_verification
    create_verification consume_verification newest get_user_by_id create_session
    SessionOps.create_session Sessions.from_create Verifications.from_create from_create
approved_run = refl

poll_device_token_core-IsRedeemed_example :
    IsRedeemed by_text a_week "DC"
      (readings_at 20)
      approved_store
      "token"
      (poll_device_token_core by_text a_week "DC" (readings_at 20) approved_store).1
poll_device_token_core-IsRedeemed_example =
    poll_device_token_core-IsRedeemed by_text a_week "DC" (readings_at 20) approved_store "token"
      approved_run
