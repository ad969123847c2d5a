-- ===== src/HashMap/Distinct.antt =====
-- Tables in which no two values agree on what `same` compares, and the values of a table by key.
use better_auth_rs_worker.Prelude.{
  String, ◌≡◌, refl, Bool, true, false, none, some, List, [], ◌∷◌, arith, ◌==◌, eq_iff, any, find,
  All, inl, inr, ◌⊎◌, Bool-cases, Option-cases,
}
use mathlib.Core.Path.{subst}
use better_auth_rs_worker.HashMap.{HashMap, get, insert, remove, modify, retain, values}
use better_auth_rs_worker.HashMap.Laws.{get-insert, get-remove, get-modify}
use better_auth_rs_worker.HashMap.Keys.{UniqueKeys, get-retain}

module _ {V : Type 0} where
  -- A value under a key is among the values.
  pub any-values :
      (p : V → Bool) (m : HashMap V) (k : String) (v : V)
      → any p (values m) ≡ false
      → get k m ≡ some v
      → p v ≡ false
  unfolding get
  any-values p [] k v h e = cc
  any-values p ((j, w) ∷ m) k v h e = ground (arith, any-values p m k v)

  -- What `find` returns passes its test; where it returns nothing no value does.
  pub find-none : (p : V → Bool) (xs : List V) → find p xs ≡ none → any p xs ≡ false
  find-none p [] h = refl
  find-none p (x ∷ xs) h = ground (arith, find-none p xs)

  pub find-some : (p : V → Bool) (xs : List V) (v : V) → find p xs ≡ some v → p v ≡ true
  find-some p [] v h = cc
  find-some p (x ∷ xs) v h = ground (arith, find-some p xs v)

  -- A predicate on the values of a map, read at a key.
  pub All-values :
      (P : V → Type 0) (m : HashMap V) (k : String) (v : V)
      → All P (values m)
      → get k m ≡ some v
      → P v
  unfolding get
  All-values P [] k v h e = absurd (ground arith)
  All-values P ((j, w) ∷ m) k v h e = elim (Bool-cases (j == k)) [
    | inl q ↦ subst P (ground arith) h.0
    | inr q ↦ All-values P m k v h.1 (ground arith)
  ]

  -- A value after an update in place is the old one, or its image.
  pub modify_inv :
      (k i : String) (f : V → V) (m : HashMap V) (x : V)
      → get i (modify k f m) ≡ some x
      → (y : V) × (get i m ≡ some y) × ((x ≡ y) ⊎ (x ≡ f y))
  modify_inv k i f m x e = elim (Option-cases (get i m)) [
    | inl p ↦ absurd (ground (arith, get-modify k i f m))
    | inr (y, p) ↦ (y, p, ground (arith, get-modify k i f m))
  ]

module _ {V : Type 0} (same : V → V → Bool) where
  pub record IsDistinct (m : HashMap V) : Type 0 where
    pub at :
        (i j : String) (v w : V) → get i m ≡ some v → get j m ≡ some w → same v w ≡ true → i ≡ j

module _ {V : Type 0} (same : V → V → Bool) (sym : (v w : V) → same v w ≡ same w v) (m : HashMap V)
    (h : IsDistinct same m) where
  pub insert-IsDistinct :
      (k : String) (v : V) → any (λ w. same w v) (values m) ≡ false → IsDistinct same (insert k v m)
  insert-IsDistinct k v free = record {
    at = λ i j x y ei ej s. ground (
      arith,
      h.at i j x y,
      get-insert k i v m,
      get-insert k j v m,
      eq_iff k i,
      eq_iff k j,
      any-values (λ w. same w v) m i x free,
      any-values (λ w. same w v) m j y free,
      sym x y,
    );
  }

  pub remove-IsDistinct : (k : String) → IsDistinct same (remove k m)
  remove-IsDistinct k = record {
    at = λ i j x y ei ej s. ground (arith, h.at i j x y, get-remove k i m, get-remove k j m);
  }

  pub retain-IsDistinct : (p : V → Bool) → UniqueKeys m → IsDistinct same (retain p m)
  retain-IsDistinct p u = record {
    at = λ i j x y ei ej s. ground (arith, h.at i j x y, get-retain p i m u, get-retain p j m u);
  }

  pub modify-IsDistinct :
      (k : String) (f : V → V)
      → ((v w : V) → same (f v) w ≡ same v w)
      → IsDistinct same (modify k f m)
  modify-IsDistinct k f keep = record {
    at = λ i j x y ei ej s.
        let (x', p, q) = modify_inv k i f m x ei in
        let (y', p', q') = modify_inv k j f m y ej in
        ground
          (arith, h.at i j x' y', keep x' y', keep x' (f y'), sym x' (f y'), keep y' x', sym y' x');
  }
