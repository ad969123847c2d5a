-- ===== src/Entity/Members.antt =====
-- Members of an organization.
use better_auth_rs_worker.Prelude.{String}
use better_auth_rs_worker.Entity.Base.{Instant}

pub record Member : Type 0 where
  pub id : String
  pub organization_id : String
  pub user_id : String
  pub role : String
  pub created_at : Instant

pub record CreateMember : Type 0 where
  pub organization_id : String
  pub user_id : String
  pub role : String

-- `MemoryMember::from_create`
unfoldable pub from_create : String → CreateMember → Instant → Member
from_create id create now = record {
  id = id;
  organization_id = create.organization_id;
  user_id = create.user_id;
  role = create.role;
  created_at = now;
}
