-- ===== src/Entity/Passkeys.antt =====
-- Passkeys.
use better_auth_rs_worker.Prelude.{ℕ, String, Bool, Option}
use better_auth_rs_worker.Entity.Base.{Instant}

pub record Passkey : Type 0 where
  pub id : String
  pub name : String
  pub public_key : String
  pub user_id : String
  pub credential_id : String
  pub counter : ℕ
  pub device_type : String
  pub backed_up : Bool
  pub transports : Option String
  pub created_at : Instant

pub record CreatePasskey : Type 0 where
  pub user_id : String
  pub name : String
  pub credential_id : String
  pub public_key : String
  pub counter : ℕ
  pub device_type : String
  pub backed_up : Bool
  pub transports : Option String

-- `MemoryPasskey::from_create`
unfoldable pub from_create : String → CreatePasskey → Instant → Passkey
from_create id input now = record {
  id = id;
  name = input.name;
  public_key = input.public_key;
  user_id = input.user_id;
  credential_id = input.credential_id;
  counter = input.counter;
  device_type = input.device_type;
  backed_up = input.backed_up;
  transports = input.transports;
  created_at = now;
}
