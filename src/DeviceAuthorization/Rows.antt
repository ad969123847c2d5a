-- ===== src/DeviceAuthorization/Rows.antt =====
-- The rows of the verification table under an identifier, and how the store's methods change them.
use better_auth_rs_worker.Prelude.{
  String, ◌≡◌, refl, Bool, true, false, ◌&&◌, none, some, List, [], ◌∷◌, ◌++◌, eq_iff, arith,
  if◌then◌else◌, filter, find,
}
use better_auth_rs_worker.HashMap.{HashMap, get, insert, remove, values}
use better_auth_rs_worker.HashMap.Keys.{UniqueKeys, remove_absent}

module _ {V : Type 0} (p : V → Bool) where
  -- A new row comes last.
  pub filter-insert :
      (k : String) (v : V) (m : HashMap V)
      → get k m ≡ none
      → filter p (values (insert k v m)) ≡ filter p (values m) ++ (if p v then v ∷ [] else [])
  unfolding get insert
  filter-insert k v [] h = ground arith
  filter-insert k v ((j, w) ∷ m) h = ground (arith, filter-insert k v m, eq_iff j k)

  -- A row that fails the test leaves the others as they are; the only row leaves none.
  pub filter-remove_other :
      (k : String) (v : V) (m : HashMap V)
      → UniqueKeys m
      → get k m ≡ some v
      → p v ≡ false
      → filter p (values (remove k m)) ≡ filter p (values m)
  unfolding get remove
  filter-remove_other k v [] u h q = absurd (ground arith)
  filter-remove_other k v ((j, w) ∷ m) u h q =
      ground (arith, filter-remove_other k v m u.1, remove_absent k m, eq_iff j k)

  pub filter_none-get :
      (k : String) (v : V) (m : HashMap V)
      → get k m ≡ some v
      → filter p (values m) ≡ []
      → p v ≡ false
  unfolding get
  filter_none-get k v [] h e = absurd (ground arith)
  filter_none-get k v ((j, w) ∷ m) h e = ground (arith, filter_none-get k v m, eq_iff j k)

  pub filter-remove_only :
      (k : String) (v : V) (m : HashMap V)
      → UniqueKeys m
      → get k m ≡ some v
      → filter p (values m) ≡ v ∷ []
      → p v ≡ true
      → filter p (values (remove k m)) ≡ []
  unfolding get remove
  filter-remove_only k v [] u h e q = absurd (ground arith)
  filter-remove_only k v ((j, w) ∷ m) u h e q =
      ground
        (arith, filter-remove_only k v m u.1, remove_absent k m, eq_iff j k, filter_none-get k v m)

  -- A search with a further test looks among the rows.
  pub find-filter : (q : V → Bool) (xs : List V) → find (λ x. p x && q x) xs ≡ find q (filter p xs)
  find-filter q [] = refl
  find-filter q (x ∷ xs) = ground (arith, find-filter q xs)

  pub find-filter_two :
      (q q' : V → Bool) (xs : List V)
      → find (λ x. p x && q x && q' x) xs ≡ find (λ x. q x && q' x) (filter p xs)
  find-filter_two q q' [] = refl
  find-filter_two q q' (x ∷ xs) = ground (arith, find-filter_two q q' xs)
