-- ===== src/Entity/Accounts.antt =====
-- Accounts: a user's link to a provider.
use better_auth_rs_worker.Prelude.{String, Option}
use better_auth_rs_worker.Entity.Base.{Instant, assign_some}

pub record Account : Type 0 where
  pub id : String
  pub account_id : String
  pub provider_id : String
  pub user_id : String
  pub access_token : Option String
  pub refresh_token : Option String
  pub id_token : Option String
  pub access_token_expires_at : Option Instant
  pub refresh_token_expires_at : Option Instant
  pub scope : Option String
  pub password : Option String
  pub created_at : Instant
  pub updated_at : Instant

pub record CreateAccount : Type 0 where
  pub user_id : String
  pub account_id : String
  pub provider_id : String
  pub access_token : Option String
  pub refresh_token : Option String
  pub id_token : Option String
  pub access_token_expires_at : Option Instant
  pub refresh_token_expires_at : Option Instant
  pub scope : Option String
  pub password : Option String

pub record UpdateAccount : Type 0 where
  pub access_token : Option String
  pub refresh_token : Option String
  pub id_token : Option String
  pub access_token_expires_at : Option Instant
  pub refresh_token_expires_at : Option Instant
  pub scope : Option String
  pub password : Option String

-- `MemoryAccount::from_create`
unfoldable pub from_create : String → CreateAccount → Instant → Account
from_create id create now = record {
  id = id;
  account_id = create.account_id;
  provider_id = create.provider_id;
  user_id = create.user_id;
  access_token = create.access_token;
  refresh_token = create.refresh_token;
  id_token = create.id_token;
  access_token_expires_at = create.access_token_expires_at;
  refresh_token_expires_at = create.refresh_token_expires_at;
  scope = create.scope;
  password = create.password;
  created_at = now;
  updated_at = now;
}

-- `MemoryAccount::apply_update`
unfoldable pub apply_update : UpdateAccount → Instant → Account → Account
apply_update update now account = record account {
  access_token = assign_some update.access_token account.access_token;
  refresh_token = assign_some update.refresh_token account.refresh_token;
  id_token = assign_some update.id_token account.id_token;
  access_token_expires_at =
      assign_some update.access_token_expires_at account.access_token_expires_at;
  refresh_token_expires_at =
      assign_some update.refresh_token_expires_at account.refresh_token_expires_at;
  scope = assign_some update.scope account.scope;
  password = assign_some update.password account.password;
  updated_at = now;
}
