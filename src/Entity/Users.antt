-- ===== src/Entity/Users.antt =====
-- Users.
use better_auth_rs_worker.Prelude.{String, Bool, true, false, Option, none, some, get_or}
use better_auth_rs_worker.Entity.Base.{Instant, Json, assign, assign_some}

pub record User : Type 0 where
  pub id : String
  pub name : Option String
  pub email : Option String
  pub email_verified : Bool
  pub image : Option String
  pub created_at : Instant
  pub updated_at : Instant
  pub username : Option String
  pub display_username : Option String
  pub two_factor_enabled : Bool
  pub role : Option String
  pub banned : Bool
  pub ban_reason : Option String
  pub ban_expires : Option Instant
  pub metadata : Json

pub record CreateUser : Type 0 where
  pub id : Option String
  pub email : Option String
  pub name : Option String
  pub image : Option String
  pub email_verified : Option Bool
  pub password : Option String
  pub username : Option String
  pub display_username : Option String
  pub role : Option String
  pub metadata : Option Json

pub record UpdateUser : Type 0 where
  pub email : Option String
  pub name : Option String
  pub image : Option String
  pub email_verified : Option Bool
  pub username : Option String
  pub display_username : Option String
  pub role : Option String
  pub banned : Option Bool
  pub ban_reason : Option String
  pub ban_expires : Option Instant
  pub two_factor_enabled : Option Bool
  pub metadata : Option Json

-- `MemoryUser::from_create`
unfoldable pub from_create : String → CreateUser → Instant → User
from_create id create now = record {
  id = id;
  name = create.name;
  email = create.email;
  email_verified = get_or create.email_verified false;
  image = create.image;
  created_at = now;
  updated_at = now;
  username = create.username;
  display_username = create.display_username;
  two_factor_enabled = false;
  role = create.role;
  banned = false;
  ban_reason = none;
  ban_expires = none;
  metadata = get_or create.metadata "{}";
}

-- An explicit unban clears the reason and the expiry of the ban.
abbrev pub unban {ℓ} : {A : Type ℓ} → Option Bool → Option A → Option A
unban (some false) old = none
unban (some true) old = old
unban none old = old

-- `MemoryUser::apply_update`, with the clock's reading
unfoldable pub apply_update : UpdateUser → Instant → User → User
apply_update update now user = record user {
  email = assign_some update.email user.email;
  name = assign_some update.name user.name;
  image = assign_some update.image user.image;
  email_verified = assign update.email_verified user.email_verified;
  username = assign_some update.username user.username;
  display_username = assign_some update.display_username user.display_username;
  role = assign_some update.role user.role;
  banned = assign update.banned user.banned;
  ban_reason = assign_some update.ban_reason (unban update.banned user.ban_reason);
  ban_expires = assign_some update.ban_expires (unban update.banned user.ban_expires);
  two_factor_enabled = assign update.two_factor_enabled user.two_factor_enabled;
  metadata = assign update.metadata user.metadata;
  updated_at = now;
}
