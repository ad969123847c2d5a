-- ===== src/HashMap/Index.antt =====
-- A table by id with a secondary index from a field of its values to their ids, as the in-memory
-- adapter keeps for e-mail addresses, user names, slugs and credential ids.
use better_auth_rs_worker.Prelude.{
  String, ◌≡◌, refl, Bool, true, false, Option, none, some, arith, ◌==◌, eq_iff, if◌then◌else◌, ◌⊎◌,
  ◌↔◌,
}
use better_auth_rs_worker.HashMap.{HashMap, get, insert, remove, modify}
use better_auth_rs_worker.HashMap.Laws.{get-insert, get-remove, get-modify}

-- `if let Some(k) = key { index.insert(k, id) }`
abbrev pub add_key : Option String → String → HashMap String → HashMap String
add_key none id index = index
add_key (some k) id index = insert k id index

-- `if let Some(k) = key { index.remove(k) }`
abbrev pub drop_key : Option String → HashMap String → HashMap String
drop_key none index = index
drop_key (some k) index = remove k index

module _ {V : Type 0} (key : V → Option String) where
  -- The key of the value under an id.
  abbrev pub key_at : String → HashMap V → Option String
  key_at id table = elim (get id table) [ none ↦ none | some v ↦ key v ]

  -- The index holds exactly the keys of the values of the table, each with the id of its value.
  pub record IsIndexed (table : HashMap V) (index : HashMap String) : Type 0 where
    pub sound : (k id : String) → get k index ≡ some id → key_at id table ≡ some k
    pub complete : (k id : String) → key_at id table ≡ some k → get k index ≡ some id

-- Whether an optional key is `k`.
abbrev pub holds : Option String → String → Bool
holds none k = false
holds (some j) k = j == k

pub get-add_key :
    (o : Option String) (id k : String) (index : HashMap String)
    → get k (add_key o id index) ≡ (if holds o k then some id else get k index)
get-add_key none id k index = refl
get-add_key (some j) id k index = get-insert j k id index

pub get-drop_key :
    (o : Option String) (k : String) (index : HashMap String)
    → get k (drop_key o index) ≡ (if holds o k then none else get k index)
get-drop_key none k index = refl
get-drop_key (some j) k index = get-remove j k index

pub holds_iff : (o : Option String) (k : String) → (holds o k ≡ true) ↔ (o ≡ some k)
holds_iff none k = ground arith
holds_iff (some j) k = ground (arith, eq_iff j k)

module _ {V : Type 0} (key : V → Option String) (id : String) (v : V) (table : HashMap V)
    (index : HashMap String) (h : IsIndexed key table index) where
  -- A new value under a new id, whose key is not taken.
  pub insert-IsIndexed :
      get id table ≡ none
      → ((k : String) → key v ≡ some k → get k index ≡ none)
      → IsIndexed key (insert id v table) (add_key (key v) id index)
  insert-IsIndexed fresh free = record {
    sound = λ k i p. ground (
      arith,
      h.sound k i,
      eq_iff id i,
      get-insert id i v table,
      get-add_key (key v) id k index,
      holds_iff (key v) k,
    );
    complete = λ k i p. ground (
      arith,
      h.complete k i,
      free k,
      eq_iff id i,
      get-insert id i v table,
      get-add_key (key v) id k index,
      holds_iff (key v) k,
    );
  }

  pub remove-IsIndexed :
      get id table ≡ some v → IsIndexed key (remove id table) (drop_key (key v) index)
  remove-IsIndexed e = record {
    sound = λ k i p. ground (
      arith,
      h.sound k i,
      h.complete k id,
      eq_iff id i,
      get-remove id i table,
      get-drop_key (key v) k index,
      holds_iff (key v) k,
    );
    complete = λ k i p. ground (
      arith,
      h.complete k i,
      h.complete k id,
      eq_iff id i,
      get-remove id i table,
      get-drop_key (key v) k index,
      holds_iff (key v) k,
    );
  }

  -- An update that leaves the key as it is.
  pub modify-IsIndexed_same :
      (f : V → V)
      → get id table ≡ some v
      → key (f v) ≡ key v
      → IsIndexed key (modify id f table) index
  modify-IsIndexed_same f e same = record {
    sound = λ k i p. ground (arith, h.sound k i, eq_iff id i, get-modify id i f table);
    complete = λ k i p. ground (arith, h.complete k i, eq_iff id i, get-modify id i f table);
  }

  -- An update to another key, which no other value has.
  pub modify-IsIndexed :
      (f : V → V) (k' : String)
      → get id table ≡ some v
      → key (f v) ≡ some k'
      → (get k' index ≡ none) ⊎ (get k' index ≡ some id)
      → IsIndexed key (modify id f table) (insert k' id (drop_key (key v) index))
  modify-IsIndexed f k' e new free = record {
    sound = λ k i p. ground (
      arith,
      h.sound k i,
      h.complete k id,
      eq_iff id i,
      get-modify id i f table,
      get-insert k' k id (drop_key (key v) index),
      get-drop_key (key v) k index,
      holds_iff (key v) k,
      eq_iff k' k,
    );
    complete = λ k i p. ground (
      arith,
      h.complete k i,
      h.complete k id,
      eq_iff id i,
      get-modify id i f table,
      get-insert k' k id (drop_key (key v) index),
      get-drop_key (key v) k index,
      holds_iff (key v) k,
      eq_iff k' k,
    );
  }
