-- ===== src/Prelude/Sort.antt =====
-- `slice::sort_by`, a stable sort, as an insertion sort: `before a b` says that `a` may stand before
-- `b`. Any two stable sorts by a total and transitive comparison return the same list.
use Prim.Native.Nat.{ℕ, ◌+◌}
use Prim.Native.String.{String, compare}
use Prim.Native.Nat as Nat
use mathlib.Core.Path.{◌≡◌, refl}
use mathlib.Core.Logic.{inl, inr}
use mathlib.Core.Bool.{Bool, true, false}
use mathlib.Core.List.{List, [], ◌∷◌}
use native.Mathlib.Omega.{arith}
use better_auth_rs_worker.Prelude.Tests.{if◌then◌else◌, Bool-cases}
use better_auth_rs_worker.Prelude.Lists.{All, filter, length}

-- `a <= b` on strings
abbrev pub leb_text : String → String → Bool
leb_text a b = elim (compare a b) [ Nat.Ordering.gt ↦ false | _ ↦ true ]

module _ {A : Type 0} (before : A → A → Bool) where
  abbrev pub insert_sorted : A → List A → List A
  insert_sorted x [] = x ∷ []
  insert_sorted x (y ∷ ys) =
      let rest = insert_sorted x ys in if before x y then x ∷ y ∷ ys else y ∷ rest

  abbrev pub sort_by : List A → List A
  sort_by [] = []
  sort_by (x ∷ xs) = insert_sorted x (sort_by xs)

  -- Each element may stand before all that follow it.
  abbrev pub IsSorted : List A → Type 0
  IsSorted [] = Unit
  IsSorted (x ∷ xs) = All (λ y. before x y ≡ true) xs × IsSorted xs

  -- A stable sort neither loses nor repeats an element: it keeps the elements that pass any test
  -- in number.
  insert_sorted-count :
      (p : A → Bool) (x : A) (xs : List A)
      → length (filter p (insert_sorted x xs)) ≡ length (filter p (x ∷ xs))
  insert_sorted-count p x [] = refl
  insert_sorted-count p x (y ∷ ys) = ground (arith, insert_sorted-count p x ys)

  pub sort_by-count :
      (p : A → Bool) (xs : List A) → length (filter p (sort_by xs)) ≡ length (filter p xs)
  sort_by-count p [] = refl
  sort_by-count p (x ∷ xs) =
      ground (arith, insert_sorted-count p x (sort_by xs), sort_by-count p xs)

  All-insert_sorted :
      (P : A → Type 0) (x : A) (xs : List A) → P x → All P xs → All P (insert_sorted x xs)
  All-insert_sorted P x [] h k = (h, tt)
  All-insert_sorted P x (y ∷ ys) h k = elim (Bool-cases (before x y)) [
    | inl q ↦ rw q (h, k)
    | inr q ↦ rw q (k.0, All-insert_sorted P x ys h k.1)
  ]

  All-weaken : (P Q : A → Type 0) (xs : List A) → ((x : A) → P x → Q x) → All P xs → All Q xs
  All-weaken P Q [] w h = tt
  All-weaken P Q (x ∷ xs) w h = (w x h.0, All-weaken P Q xs w h.1)

  module _ (total : (a b : A) → before a b ≡ false → before b a ≡ true)
      (trans : (a b c : A) → before a b ≡ true → before b c ≡ true → before a c ≡ true) where
    insert_sorted-IsSorted : (x : A) (xs : List A) → IsSorted xs → IsSorted (insert_sorted x xs)
    insert_sorted-IsSorted x [] h = (tt, tt)
    insert_sorted-IsSorted x (y ∷ ys) h = elim (Bool-cases (before x y)) [
      | inl q ↦ rw q (
        (
          q,
          All-weaken (λ z. before y z ≡ true) (λ z. before x z ≡ true) ys (λ z r. trans x y z q r)
              h.0,
        ),
        h,
      )
      | inr q ↦ rw q (
        All-insert_sorted (λ z. before y z ≡ true) x ys (total x y q) h.0,
        insert_sorted-IsSorted x ys h.1,
      )
    ]

    pub sort_by-IsSorted : (xs : List A) → IsSorted (sort_by xs)
    sort_by-IsSorted [] = tt
    sort_by-IsSorted (x ∷ xs) = insert_sorted-IsSorted x (sort_by xs) (sort_by-IsSorted xs)
