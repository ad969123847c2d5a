-- ===== src/HashMap/Count.antt =====
-- How many values of a table pass a test, after a removal and after a change in place.
use better_auth_rs_worker.Prelude.{
  ℕ, ◌+◌, String, ◌≡◌, Bool, some, [], ◌∷◌, arith, eq_iff, if◌then◌else◌, filter, length,
}
use better_auth_rs_worker.HashMap.{HashMap, get, remove, modify, values}
use better_auth_rs_worker.HashMap.Keys.{UniqueKeys, remove_absent}

module _ {V : Type 0} (p : V → Bool) where
  abbrev pub count_of : HashMap V → ℕ
  count_of m = length (filter p (values m))

  pub count-remove :
      (m : HashMap V) (k : String) (v : V)
      → UniqueKeys m
      → get k m ≡ some v
      → count_of m ≡ count_of (remove k m) + (if p v then 1 else 0)
  unfolding get remove
  count-remove [] k v u e = absurd (ground arith)
  count-remove ((j, w) ∷ m) k v u e =
      ground (arith, count-remove m k v u.1, remove_absent k m, eq_iff j k)

  pub count-modify :
      (m : HashMap V) (k : String) (v : V) (f : V → V)
      → UniqueKeys m
      → get k m ≡ some v
      → count_of (modify k f m) + (if p v then 1 else 0) ≡ count_of m + (if p (f v) then 1 else 0)
  unfolding get modify
  count-modify [] k v f u e = absurd (ground arith)
  count-modify ((j, w) ∷ m) k v f u e = ground (arith, count-modify m k v f u.1, eq_iff j k)
