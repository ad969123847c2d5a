-- ===== src/HashMap.antt =====
-- `std::collections::HashMap<String, V>` as an association list. The order of the list stands for
-- the order in which the program would iterate, which Rust leaves open: the theorems hold for every
-- list. A map that the program can hold has each key once (`UniqueKeys`).
pub mod Laws
pub mod Keys
pub mod Index
pub mod Distinct
pub mod Count
use better_auth_rs_worker.Prelude.{
  ℕ, String, Bool, not, Option, none, some, List, [], ◌∷◌, map, ◌==◌, if◌then◌else◌, is_some,
  length,
}

abbrev pub HashMap {ℓ} : Type ℓ → Type ℓ
HashMap V = List (String × V)

module _ {ℓ} {V : Type ℓ} where
  -- `get`
  unfoldable pub get : String → HashMap V → Option V
  get k [] = none
  get k ((j, v) ∷ m) = if j == k then some v else get k m

  -- `contains_key`
  unfoldable pub contains_key : String → HashMap V → Bool
  unfolding get
  contains_key k m = is_some (get k m)

  -- `insert`, which overwrites
  unfoldable pub insert : String → V → HashMap V → HashMap V
  insert k v [] = (k, v) ∷ []
  insert k v ((j, w) ∷ m) = if j == k then (k, v) ∷ m else (j, w) ∷ insert k v m

  -- `retain(|_, v| p(v))`
  unfoldable pub retain : (V → Bool) → HashMap V → HashMap V
  retain p [] = []
  retain p ((j, v) ∷ m) = let rest = retain p m in if p v then (j, v) ∷ rest else rest

  -- `remove`, without the value that it returns
  unfoldable pub remove : String → HashMap V → HashMap V
  remove k [] = []
  remove k ((j, v) ∷ m) = let rest = remove k m in if j == k then rest else (j, v) ∷ rest

  -- `values()`
  abbrev pub values : HashMap V → List V
  values [] = []
  values ((j, v) ∷ m) = v ∷ values m

  -- `len()`
  abbrev pub len : HashMap V → ℕ
  len = length

  -- `get_mut` followed by an update in place; nothing happens where the key is missing
  unfoldable pub modify : String → (V → V) → HashMap V → HashMap V
  modify k f [] = []
  modify k f ((j, v) ∷ m) = if j == k then (j, f v) ∷ m else (j, v) ∷ modify k f m
