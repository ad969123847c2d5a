-- ===== src/Memory/OrganizationOps/Cascade.antt =====
-- Deleting an organization takes its members and invitations along, and no others.
use better_auth_rs_worker.Prelude.{
  String, ◌≡◌, ◌≢◌, not, none, if◌then◌else◌, Bool-cases, inl, inr, List, [], arith, ◌==◌, eq_iff,
  filter, filter-filter_none, filter-filter_all, ap,
}
use better_auth_rs_worker.Error.{ok}
use better_auth_rs_worker.HashMap.{values}
use better_auth_rs_worker.HashMap.Laws.{values-retain, get-remove_self}
use better_auth_rs_worker.Entity.{Member, Invitation}
use better_auth_rs_worker.Memory.{MemoryDatabaseAdapter}
use better_auth_rs_worker.Memory.OrganizationOps.{delete_organization, get_organization_by_id}
use better_auth_rs_worker.Memory.MemberOps.{list_organization_members}
use better_auth_rs_worker.Memory.InvitationOps.{list_organization_invitations}

module _ {V : Type 0} (org_of : V → String) (id : String) where
  listed_none :
      (xs : List V) → filter (λ v. org_of v == id) (filter (λ v. not (org_of v == id)) xs) ≡ []
  listed_none xs = filter-filter_none _ _ xs (λ x e. ground arith)

  listed_other :
      (j : String) (xs : List V)
      → j ≢ id
      → filter (λ v. org_of v == j) (filter (λ v. not (org_of v == id)) xs)
        ≡ filter (λ v. org_of v == j) xs
  listed_other j xs ne =
      filter-filter_all _ _ xs (λ x e. ground (arith, eq_iff (org_of x) j, eq_iff (org_of x) id))

  -- What a listing by organization finds once those of `id` are dropped.
  left :
      (j : String) (xs : List V)
      → ok (filter (λ v. org_of v == j) (filter (λ v. not (org_of v == id)) xs))
        ≡ (if j == id then ok [] else ok (filter (λ v. org_of v == j) xs))
  left j xs = elim (Bool-cases (j == id)) [
    | inl e ↦ rw (e, (eq_iff j id).0 e) (ap ok (listed_none xs))
    | inr e ↦ rw e (ap ok (listed_other j xs (λ p. ground (arith, eq_iff j id))))
  ]

-- After the deletion of an organization it is not found by its id, its members and invitations
-- are listed no more, and those of every other organization are listed as before.
pub delete_organization_cascade :
    (id : String) (db : MemoryDatabaseAdapter)
    → let db' = (delete_organization id db).1 in
      ((get_organization_by_id id db').0 ≡ ok none)
      × ((j : String)
          → ((list_organization_members j db').0
              ≡ (if j == id then ok [] else (list_organization_members j db).0))
            × ((list_organization_invitations j db').0
                ≡ (if j == id then ok [] else (list_organization_invitations j db).0)))
unfolding delete_organization get_organization_by_id list_organization_members
    list_organization_invitations
delete_organization_cascade id db = (
  ap ok (get-remove_self id db.organizations),
  λ j. (
    rw values-retain (left (λ (m : Member). m.organization_id) id j (values db.members)),
    rw values-retain (left (λ (i : Invitation). i.organization_id) id j (values db.invitations)),
  ),
)
