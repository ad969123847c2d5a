-- ===== src/Organization/Rbac.antt =====
-- crates/api/src/plugins/organization/rbac.rs: what the roles permit. `split_trimmed` stands for
-- `split(',')` with `trim` on each part.
use better_auth_rs_worker.Prelude.{
  String, Bool, true, false, none, some, List, ◌==◌, ◌||◌, if◌then◌else◌, any,
}
use better_auth_rs_worker.HashMap.{HashMap, get}

pub data Resource : Type 0 where
  organization member invitation : Resource

-- `Action`
pub data RbacAction : Type 0 where
  create read update delete cancel : RbacAction

-- `RolePermissions`: the names of the permitted actions.
pub record RolePermissions : Type 0 where
  pub organization : List String
  pub member : List String
  pub invitation : List String

abbrev pub action_str : RbacAction → String
action_str create = "create"
action_str read = "read"
action_str update = "update"
action_str delete = "delete"
action_str cancel = "cancel"

abbrev permitted : RolePermissions → Resource → List String
permitted role organization = role.organization
permitted role member = role.member
permitted role invitation = role.invitation

-- The permissions that `default_roles` gives to owners; admins lack one of them.
abbrev owner_permits : Resource → RbacAction → Bool
owner_permits organization update = true
owner_permits organization delete = true
owner_permits member create = true
owner_permits member update = true
owner_permits member delete = true
owner_permits invitation create = true
owner_permits invitation cancel = true
owner_permits _ _ = false

abbrev admin_permits : Resource → RbacAction → Bool
admin_permits organization update = true
admin_permits organization _ = false
admin_permits member action = owner_permits member action
admin_permits invitation action = owner_permits invitation action

-- The lookup of `has_permission` in `default_roles`; the role `member` permits nothing.
unfoldable pub default_permits : String → Resource → RbacAction → Bool
default_permits role resource action =
    if role == "owner"
    then owner_permits resource action
    else if role == "admin"
    then admin_permits resource action
    else false

unfoldable pub has_permission : String → Resource → RbacAction → HashMap RolePermissions → Bool
has_permission role resource action custom_roles = elim (get role custom_roles) [
  | none ↦ default_permits role resource action
  | some custom ↦
      any (λ a. a == action_str action) (permitted custom resource)
      || default_permits role resource action
]

module _ (split_trimmed : String → List String) where
  unfoldable pub has_permission_any :
      String → Resource → RbacAction → HashMap RolePermissions → Bool
  has_permission_any roles resource action custom_roles =
      any (λ role. has_permission role resource action custom_roles) (split_trimmed roles)
