-- ===== src/HashMap/Laws.antt =====
-- What a lookup sees after each operation of a map, and what the values are.
use better_auth_rs_worker.Prelude.{
  ℕ, ◌+◌, ◌-◌, ◌≤◌, String, ◌≡◌, ◌≢◌, refl, ap, Bool, true, false, Option, none, some, List, [],
  ◌∷◌, arith, ◌==◌, eq_iff, eq_refl, if◌then◌else◌, find, filter, All,
}
use better_auth_rs_worker.HashMap.{HashMap, get, insert, retain, remove, values, modify}

module _ {ℓ} {V : Type ℓ} where
  pub get-insert :
      (k j : String) (v : V) (m : HashMap V)
      → get j (insert k v m) ≡ (if k == j then some v else get j m)
  unfolding get insert
  get-insert k j v [] = refl
  get-insert k j v ((i, w) ∷ m) =
      ground (arith, eq_iff k j, eq_iff i k, eq_iff i j, get-insert k j v m)

  pub get-insert_self : (k : String) (v : V) (m : HashMap V) → get k (insert k v m) ≡ some v
  get-insert_self k v m = simp (get-insert, eq_refl)

  pub get-remove :
      (k j : String) (m : HashMap V) → get j (remove k m) ≡ (if k == j then none else get j m)
  unfolding get remove
  get-remove k j [] = ground arith
  get-remove k j ((i, w) ∷ m) = ground (arith, eq_iff k j, eq_iff i k, eq_iff i j, get-remove k j m)

  pub get-remove_self : (k : String) (m : HashMap V) → get k (remove k m) ≡ none
  get-remove_self k m = simp (get-remove, eq_refl)

  pub get-modify :
      (k j : String) (f : V → V) (m : HashMap V)
      → get j (modify k f m)
        ≡ (if k == j then elim (get j m) [ none ↦ none | some v ↦ some (f v) ] else get j m)
  unfolding get modify
  get-modify k j f [] = ground arith
  get-modify k j f ((i, w) ∷ m) =
      ground (arith, eq_iff k j, eq_iff i k, eq_iff i j, get-modify k j f m)

  pub values-retain : (p : V → Bool) (m : HashMap V) → values (retain p m) ≡ filter p (values m)
  unfolding retain
  values-retain p [] = refl
  values-retain p ((j, v) ∷ m) = ground (arith, values-retain p m)

  -- No value that `p` rejects survives a `retain`, whatever the keys.
  pub get-retain_holds :
      (p : V → Bool) (k : String) (m : HashMap V) (v : V) → get k (retain p m) ≡ some v → p v ≡ true
  unfolding get retain
  get-retain_holds p k [] v h = cc
  get-retain_holds p k ((j, w) ∷ m) v h = ground (arith, get-retain_holds p k m v)

pub ruleset map_laws =
    (get-insert, get-remove, get-modify, get-insert_self, get-remove_self, eq_refl)
