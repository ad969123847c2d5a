-- ===== src/Memory/OrganizationOps/Slugs.antt =====
-- The slug index: exact after any history of creations, updates and deletions.
use better_auth_rs_worker.Prelude.{
  String, ◌≡◌, false, Option, none, some, arith, eq_iff, inl, inr, Option-cases, Bool-cases,
}
use better_auth_rs_worker.Error.{AuthResult, ok, AuthResult-cases}
use better_auth_rs_worker.HashMap.{HashMap, get, contains_key}
use better_auth_rs_worker.HashMap.Keys.{remove_absent}
use better_auth_rs_worker.HashMap.Index.{
  IsIndexed, insert-IsIndexed, remove-IsIndexed, modify-IsIndexed, modify-IsIndexed_same,
}
use better_auth_rs_worker.Entity.{Instant, Organization, CreateOrganization, UpdateOrganization}
use better_auth_rs_worker.Entity.Organizations.{from_create, apply_update}
use better_auth_rs_worker.Memory.{MemoryDatabaseAdapter, new, supplied_or_generated_id}
use better_auth_rs_worker.Memory.OrganizationOps.{
  create_organization, update_organization, delete_organization, new_slug,
}

abbrev pub slug_of : Organization → Option String
slug_of o = some o.slug

abbrev pub SlugsIndexed : MemoryDatabaseAdapter → Type 0
SlugsIndexed db = IsIndexed slug_of db.organizations db.slug_index

not_contained : (k : String) (m : HashMap String) → contains_key k m ≡ false → get k m ≡ none
unfolding contains_key
not_contained k m h = ground (arith, Option-cases (get k m))

module _ (db : MemoryDatabaseAdapter) (h : SlugsIndexed db) where
  create_organization-SlugsIndexed :
      (create : CreateOrganization) (generated : AuthResult String) (now : Instant)
      → ((id : String)
          → supplied_or_generated_id create.id generated ≡ ok id
          → get id db.organizations ≡ none)
      → SlugsIndexed (create_organization create generated now db).1
  unfolding create_organization from_create
  create_organization-SlugsIndexed create generated now fresh =
      elim (Bool-cases (contains_key create.slug db.slug_index)) [
        | inl q ↦ rw (q, create_organization) h
        | inr q ↦ elim (AuthResult-cases (supplied_or_generated_id create.id generated)) [
          | inr (e, p) ↦ rw (q, create_organization, p) h
          | inl (id, p) ↦
              rw (q, create_organization, p)
                (insert-IsIndexed slug_of id (from_create id create now) db.organizations
                  db.slug_index h (fresh id p)
                  (λ k e. ground (arith, not_contained k db.slug_index)))
        ]
      ]

  update_organization-SlugsIndexed :
      (id : String) (update : UpdateOrganization) (now : Instant)
      → SlugsIndexed (update_organization id update now db).1
  unfolding update_organization apply_update
  update_organization-SlugsIndexed id update now = elim (Option-cases (get id db.organizations)) [
    | inl e ↦ rw (e, update_organization) h
    | inr (org, e) ↦ elim (Option-cases (new_slug update org)) [
      | inl p ↦
          rw (e, update_organization, p)
            (modify-IsIndexed_same slug_of id org db.organizations db.slug_index h
              (apply_update update now) e
              (ground (
                arith,
                Option-cases update.slug,
                eq_iff (apply_update update now org).slug org.slug,
              )))
      | inr (slug, p) ↦ elim (Bool-cases (contains_key slug db.slug_index)) [
        | inl q ↦ rw (e, update_organization, p, q) h
        | inr q ↦
            rw (e, update_organization, p, q)
              (modify-IsIndexed slug_of id org db.organizations db.slug_index h
                (apply_update update now) slug e (ground (arith, Option-cases update.slug))
                (inl (not_contained slug db.slug_index q)))
      ]
    ]
  ]

  delete_organization-SlugsIndexed : (id : String) → SlugsIndexed (delete_organization id db).1
  unfolding delete_organization
  delete_organization-SlugsIndexed id = elim (Option-cases (get id db.organizations)) [
    | inl e ↦ rw (e, delete_organization, remove_absent id db.organizations e) h
    | inr (org, e) ↦
        rw (e, delete_organization)
          (remove-IsIndexed slug_of id org db.organizations db.slug_index h e)
  ]

-- One call that writes organizations; a creation needs an id that is not in use.
pub data Step (db : MemoryDatabaseAdapter) : MemoryDatabaseAdapter → Type 0 where
  creates :
      (create : CreateOrganization) (generated : AuthResult String) (now : Instant)
      → ((id : String)
          → supplied_or_generated_id create.id generated ≡ ok id
          → get id db.organizations ≡ none)
      → Step db (create_organization create generated now db).1
  updates :
      (id : String) (update : UpdateOrganization) (now : Instant)
      → Step db (update_organization id update now db).1
  deletes : (id : String) → Step db (delete_organization id db).1

pub data Reach : MemoryDatabaseAdapter → Type 0 where
  start : Reach new
  next : {db db' : MemoryDatabaseAdapter} → Reach db → Step db db' → Reach db'

Step-SlugsIndexed :
    {db db' : MemoryDatabaseAdapter} → Step db db' → SlugsIndexed db → SlugsIndexed db'
Step-SlugsIndexed {db} (creates create generated now fresh) h =
    create_organization-SlugsIndexed db h create generated now fresh
Step-SlugsIndexed {db} (updates id update now) h =
    update_organization-SlugsIndexed db h id update now
Step-SlugsIndexed {db} (deletes id) h = delete_organization-SlugsIndexed db h id

-- In every store that creations under ids not in use, updates and deletions of organizations
-- reach from the empty one, the slug index holds exactly the slugs of the stored organizations.
pub Reach-SlugsIndexed : {db : MemoryDatabaseAdapter} → Reach db → SlugsIndexed db
unfolding get
Reach-SlugsIndexed start = record {
  sound = λ k id e. absurd (ground arith);
  complete = λ k id e. absurd (ground arith);
}
Reach-SlugsIndexed (next r s) = Step-SlugsIndexed s (Reach-SlugsIndexed r)

-- No two organizations of a reachable store share a slug.
pub slugs_unique :
    {db : MemoryDatabaseAdapter} (i j : String) (a b : Organization)
    → Reach db
    → get i db.organizations ≡ some a
    → get j db.organizations ≡ some b
    → a.slug ≡ b.slug
    → i ≡ j
slugs_unique {db} i j a b r p q e =
    let h = Reach-SlugsIndexed r in ground (arith, h.complete a.slug i, h.complete a.slug j)
