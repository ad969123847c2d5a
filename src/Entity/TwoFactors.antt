-- ===== src/Entity/TwoFactors.antt =====
-- Two-factor records.
use better_auth_rs_worker.Prelude.{String, Option}
use better_auth_rs_worker.Entity.Base.{Instant}

pub record TwoFactor : Type 0 where
  pub id : String
  pub secret : String
  pub backup_codes : Option String
  pub user_id : String
  pub created_at : Instant
  pub updated_at : Instant

pub record CreateTwoFactor : Type 0 where
  pub user_id : String
  pub secret : String
  pub backup_codes : Option String

-- `MemoryTwoFactor::from_create`
unfoldable pub from_create : String → CreateTwoFactor → Instant → TwoFactor
from_create id create now = record {
  id = id;
  secret = create.secret;
  backup_codes = create.backup_codes;
  user_id = create.user_id;
  created_at = now;
  updated_at = now;
}
