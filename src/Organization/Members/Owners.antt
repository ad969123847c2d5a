-- ===== src/Organization/Members/Owners.antt =====
-- Counting the owners of an organization, and what the test for the last owner establishes.
use better_auth_rs_worker.Prelude.{
  ℕ, ◌≤◌, String, ◌≡◌, refl, Bool, true, false, ◌&&◌, some, List, [], ◌∷◌, ◌==◌, eq_iff, eq_refl,
  arith, filter, length, find, leb, inl, inr, Bool-cases,
}
use better_auth_rs_worker.Error.{ok}
use better_auth_rs_worker.HashMap.{HashMap, get, values}
use better_auth_rs_worker.HashMap.Keys.{UniqueKeys}
use better_auth_rs_worker.HashMap.Count.{count_of, count-remove}
use better_auth_rs_worker.Entity.{Member}
use better_auth_rs_worker.Memory.{MemoryDatabaseAdapter}
use better_auth_rs_worker.Memory.MemberOps.{delete_member, list_organization_members}
use better_auth_rs_worker.Organization.Members.{is_owner_role, owner_count, not_last_owner}

-- Each member is stored once, under its id.
pub record MembersById (db : MemoryDatabaseAdapter) : Type 0 where
  pub unique : UniqueKeys db.members
  pub by_id : (k : String) (m : Member) → get k db.members ≡ some m → m.id ≡ k

abbrev pub is_owner_of : String → Member → Bool
is_owner_of org m = m.organization_id == org && is_owner_role m.role

-- How many members of the organization have a role that contains `owner`.
abbrev pub owners : String → MemoryDatabaseAdapter → ℕ
owners org db = count_of (is_owner_of org) db.members

owner_count_lem :
    (org : String) (xs : List Member)
    → owner_count (filter (λ m. m.organization_id == org) xs) ≡ length (filter (is_owner_of org) xs)
owner_count_lem org [] = refl
owner_count_lem org (x ∷ xs) = ground (arith, owner_count_lem org xs)

pub find_stored :
    (p : Member → Bool) (m : HashMap Member) (v : Member)
    → UniqueKeys m
    → find p (values m) ≡ some v
    → (k : String) × (get k m ≡ some v)
unfolding get
find_stored p [] v u e = absurd (ground arith)
find_stored p ((j, w) ∷ m) v u e = elim (Bool-cases (p w)) [
  | inl q ↦ (j, ground (arith, eq_refl j))
  | inr q ↦ let (k, g) = find_stored p m v u.1 (ground arith) in (k, ground (arith, eq_iff j k))
]

pub not_last_owner_store :
    (applies : Bool) (org message : String) (db : MemoryDatabaseAdapter)
    → (not_last_owner applies org message db).1 ≡ db
unfolding not_last_owner list_organization_members
not_last_owner_store false org message db = refl
not_last_owner_store true org message db =
    elim (Bool-cases
      (leb (owner_count (filter (λ m. m.organization_id == org) (values db.members))) 1)) [
        | inl q ↦ ground arith
        | inr q ↦ ground arith
      ]

pub not_last_owner_ok :
    (applies : Bool) (org message : String) (db : MemoryDatabaseAdapter)
    → (not_last_owner applies org message db).0 ≡ ok tt
    → applies ≡ true
    → 2 ≤ owners org db
unfolding not_last_owner list_organization_members
not_last_owner_ok applies org message db e a =
    ground (arith, owner_count_lem org (values db.members))

module _ (db : MemoryDatabaseAdapter) (h : MembersById db) (org : String) where
  pub delete-owners :
      (target : Member)
      → get target.id db.members ≡ some target
      → (is_owner_of org target ≡ true → 2 ≤ owners org db)
      → 1 ≤ owners org db
      → 1 ≤ owners org (delete_member target.id db).1
  unfolding delete_member
  delete-owners target e others one =
      ground (arith, others, count-remove (is_owner_of org) db.members target.id target h.unique e)

  pub find_by_id :
      (p : Member → Bool) (target : Member)
      → find p (values db.members) ≡ some target
      → get target.id db.members ≡ some target
  find_by_id p target e =
      let (k, g) = find_stored p db.members target h.unique e in ground (arith, h.by_id k target g)
