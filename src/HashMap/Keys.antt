-- ===== src/HashMap/Keys.antt =====
-- Maps that hold each key once, as every Rust map does, and what follows for `retain` and `len`.
use better_auth_rs_worker.Prelude.{
  ◌+◌, String, ◌≡◌, refl, Bool, false, none, some, [], ◌∷◌, arith, ◌==◌, eq_iff, if◌then◌else◌,
  length,
}
use better_auth_rs_worker.HashMap.{HashMap, get, insert, retain, remove, modify}

module _ {ℓ} {V : Type ℓ} where
  abbrev pub UniqueKeys : HashMap V → Type ℓ
  UniqueKeys [] = Unit
  UniqueKeys ((k, v) ∷ m) = (get k m ≡ none) × UniqueKeys m

  -- A key that is absent stays absent where entries only leave.
  pub get-retain-none :
      (p : V → Bool) (k : String) (m : HashMap V) → get k m ≡ none → get k (retain p m) ≡ none
  unfolding get retain
  get-retain-none p k [] h = refl
  get-retain-none p k ((j, w) ∷ m) h = ground (arith, get-retain-none p k m)

  pub get-remove-none : (i k : String) (m : HashMap V) → get k m ≡ none → get k (remove i m) ≡ none
  unfolding get remove
  get-remove-none i k [] h = refl
  get-remove-none i k ((j, w) ∷ m) h = ground (arith, get-remove-none i k m)

  pub get-insert-none :
      (i k : String) (v : V) (m : HashMap V)
      → (i == k) ≡ false
      → get k m ≡ none
      → get k (insert i v m) ≡ none
  unfolding get insert
  get-insert-none i k v [] e h = ground arith
  get-insert-none i k v ((j, w) ∷ m) e h =
      ground (arith, get-insert-none i k v m, eq_iff j i, eq_iff j k, eq_iff i k)

  pub insert-UniqueKeys :
      (k : String) (v : V) (m : HashMap V) → UniqueKeys m → UniqueKeys (insert k v m)
  unfolding get insert
  insert-UniqueKeys k v [] u = (refl, tt)
  insert-UniqueKeys k v ((j, w) ∷ m) u =
      ground (arith, insert-UniqueKeys k v m u.1, get-insert-none k j v m, eq_iff j k, eq_iff k j)

  pub remove-UniqueKeys : (k : String) (m : HashMap V) → UniqueKeys m → UniqueKeys (remove k m)
  unfolding get remove
  remove-UniqueKeys k [] u = tt
  remove-UniqueKeys k ((j, w) ∷ m) u =
      ground (arith, remove-UniqueKeys k m u.1, get-remove-none k j m u.0)

  pub retain-UniqueKeys : (p : V → Bool) (m : HashMap V) → UniqueKeys m → UniqueKeys (retain p m)
  unfolding get retain
  retain-UniqueKeys p [] u = tt
  retain-UniqueKeys p ((j, w) ∷ m) u =
      ground (arith, retain-UniqueKeys p m u.1, get-retain-none p j m u.0)

  -- With unique keys a lookup after `retain` is the old lookup, filtered.
  pub get-retain :
      (p : V → Bool) (k : String) (m : HashMap V)
      → UniqueKeys m
      → get k (retain p m)
        ≡ elim (get k m) [ none ↦ none | some v ↦ (if p v then some v else none) ]
  unfolding get retain
  get-retain p k [] u = refl
  get-retain p k ((j, w) ∷ m) u =
      ground (arith, get-retain p k m u.1, get-retain-none p j m u.0, eq_iff j k)

  -- Removing what is not there changes nothing.
  pub remove_absent : (k : String) (m : HashMap V) → get k m ≡ none → remove k m ≡ m
  unfolding get remove
  remove_absent k [] h = refl
  remove_absent k ((j, w) ∷ m) h = ground (arith, remove_absent k m)

  -- The values of a map with unique keys, read back by key.
  pub length-remove :
      (k : String) (m : HashMap V) {v : V}
      → UniqueKeys m
      → get k m ≡ some v
      → length (remove k m) + 1 ≡ length m
  unfolding get remove
  length-remove k [] u h = cc
  length-remove k ((j, w) ∷ m) {v} u h =
      ground (arith, remove_absent k m, length-remove k m {v = v} u.1, eq_iff j k)

  pub get-modify-none :
      (i k : String) (f : V → V) (m : HashMap V) → get k m ≡ none → get k (modify i f m) ≡ none
  unfolding get modify
  get-modify-none i k f [] h = refl
  get-modify-none i k f ((j, w) ∷ m) h = ground (arith, get-modify-none i k f m)

  pub modify-UniqueKeys :
      (k : String) (f : V → V) (m : HashMap V) → UniqueKeys m → UniqueKeys (modify k f m)
  unfolding get modify
  modify-UniqueKeys k f [] u = tt
  modify-UniqueKeys k f ((j, w) ∷ m) u =
      ground (arith, modify-UniqueKeys k f m u.1, get-modify-none k j f m u.0)
