-- ===== src/Entity/Verifications.antt =====
-- Verification tokens.
use better_auth_rs_worker.Prelude.{String}
use better_auth_rs_worker.Entity.Base.{Instant}

pub record Verification : Type 0 where
  pub id : String
  pub identifier : String
  pub value : String
  pub expires_at : Instant
  pub created_at : Instant
  pub updated_at : Instant

pub record CreateVerification : Type 0 where
  pub identifier : String
  pub value : String
  pub expires_at : Instant

-- `MemoryVerification::from_create`
unfoldable pub from_create : String → CreateVerification → Instant → Verification
from_create id create now = record {
  id = id;
  identifier = create.identifier;
  value = create.value;
  expires_at = create.expires_at;
  created_at = now;
  updated_at = now;
}
