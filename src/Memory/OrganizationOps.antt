-- ===== src/Memory/OrganizationOps.antt =====
-- crates/core/src/adapters/memory.rs, `impl OrganizationOps`.
pub mod Slugs
pub mod Cascade
use better_auth_rs_worker.Prelude.{
  String, Bool, not, Option, none, some, List, [], ◌∷◌, ◌==◌, if◌then◌else◌,
}
use better_auth_rs_worker.Error.{AuthResult, ok, err, conflict, not_found}
use better_auth_rs_worker.Action.{Action}
use better_auth_rs_worker.HashMap.{HashMap, get, insert, remove, modify, retain, contains_key}
use better_auth_rs_worker.Entity.{
  Instant, Organization, CreateOrganization, UpdateOrganization, Member,
}
use better_auth_rs_worker.Entity.Organizations.{from_create, apply_update}
use better_auth_rs_worker.Memory.{MemoryDatabaseAdapter, supplied_or_generated_id}

unfoldable pub create_organization :
    CreateOrganization → AuthResult String → Instant → Action MemoryDatabaseAdapter Organization
create_organization create generated now db =
    if contains_key create.slug db.slug_index
    then (err (conflict "Organization slug already exists"), db)
    else elim (supplied_or_generated_id create.id generated) [
      | err e ↦ (err e, db)
      | ok id ↦
          let organization = from_create id create now in
          (
            ok organization,
            record db {
              organizations = insert id organization db.organizations;
              slug_index = insert create.slug id db.slug_index;
            },
          )
    ]

unfoldable pub get_organization_by_id : String → Action MemoryDatabaseAdapter (Option Organization)
get_organization_by_id id db = (ok (get id db.organizations), db)

unfoldable pub get_organization_by_slug :
    String → Action MemoryDatabaseAdapter (Option Organization)
get_organization_by_slug slug db =
    (ok (elim (get slug db.slug_index) [ none ↦ none | some id ↦ get id db.organizations ]), db)

-- Whether the update asks for another slug.
abbrev pub new_slug : UpdateOrganization → Organization → Option String
new_slug update org = elim update.slug [
  | none ↦ none
  | some slug ↦ if slug == org.slug then none else some slug
]

abbrev pub write_organization :
    String
    → UpdateOrganization
    → Instant
    → Organization
    → HashMap String
    → Action MemoryDatabaseAdapter Organization
write_organization id update now org slugs db = (
  ok (apply_update update now org),
  record db {
    organizations = modify id (apply_update update now) db.organizations;
    slug_index = slugs;
  },
)

unfoldable pub update_organization :
    String → UpdateOrganization → Instant → Action MemoryDatabaseAdapter Organization
update_organization id update now db = elim (get id db.organizations) [
  | none ↦ (err (not_found "Organization not found"), db)
  | some org ↦ elim (new_slug update org) [
    | none ↦ write_organization id update now org db.slug_index db
    | some slug ↦
        if contains_key slug db.slug_index
        then (err (conflict "Organization slug already exists"), db)
        else write_organization id update now org (insert slug id (remove org.slug db.slug_index))
            db
  ]
]

-- The slug that `delete_organization` takes out of the index.
abbrev pub drop_slug : Option Organization → HashMap String → HashMap String
drop_slug none index = index
drop_slug (some org) index = remove org.slug index

unfoldable pub delete_organization : String → Action MemoryDatabaseAdapter Unit
delete_organization id db = (
  ok tt,
  record db {
    organizations = remove id db.organizations;
    slug_index = drop_slug (get id db.organizations) db.slug_index;
    members = retain (λ m. not (m.organization_id == id)) db.members;
    invitations = retain (λ i. not (i.organization_id == id)) db.invitations;
  },
)

-- The organizations of the user's memberships that exist, one for each membership.
abbrev organizations_of : String → HashMap Organization → HashMap Member → List Organization
organizations_of user_id organizations [] = []
organizations_of user_id organizations ((_, m) ∷ members) =
    let rest = organizations_of user_id organizations members in
    if m.user_id == user_id
    then elim (get m.organization_id organizations) [ none ↦ rest | some org ↦ org ∷ rest ]
    else rest

unfoldable pub list_user_organizations : String → Action MemoryDatabaseAdapter (List Organization)
list_user_organizations user_id db = (ok (organizations_of user_id db.organizations db.members), db)
