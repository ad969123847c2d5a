-- ===== src/Entity/Organizations.antt =====
-- Organizations.
use better_auth_rs_worker.Prelude.{String, Option}
use better_auth_rs_worker.Entity.Base.{Instant, Json, assign, assign_some}

pub record Organization : Type 0 where
  pub id : String
  pub name : String
  pub slug : String
  pub logo : Option String
  pub metadata : Option Json
  pub created_at : Instant
  pub updated_at : Instant

pub record CreateOrganization : Type 0 where
  pub id : Option String
  pub name : String
  pub slug : String
  pub logo : Option String
  pub metadata : Option Json

pub record UpdateOrganization : Type 0 where
  pub name : Option String
  pub slug : Option String
  pub logo : Option String
  pub metadata : Option Json

-- `MemoryOrganization::from_create`
unfoldable pub from_create : String → CreateOrganization → Instant → Organization
from_create id create now = record {
  id = id;
  name = create.name;
  slug = create.slug;
  logo = create.logo;
  metadata = create.metadata;
  created_at = now;
  updated_at = now;
}

-- `MemoryOrganization::apply_update`
unfoldable pub apply_update : UpdateOrganization → Instant → Organization → Organization
apply_update update now org = record org {
  name = assign update.name org.name;
  slug = assign update.slug org.slug;
  logo = assign_some update.logo org.logo;
  metadata = assign_some update.metadata org.metadata;
  updated_at = now;
}
