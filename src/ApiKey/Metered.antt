-- ===== src/ApiKey/Metered.antt =====
-- Keys whose uses are counted, in the table of keys after its changes.
use better_auth_rs_worker.Prelude.{
  ℕ, ◌≤◌, pos_part, String, ◌≡◌, Bool, true, ◌&&◌, none, some, arith, is_some, is_none, inl, inr,
  Option-cases,
}
use better_auth_rs_worker.HashMap.{HashMap, get, modify, remove, retain}
use better_auth_rs_worker.HashMap.Laws.{get-modify, get-remove}
use better_auth_rs_worker.HashMap.Keys.{
  modify-UniqueKeys, remove-UniqueKeys, retain-UniqueKeys, get-retain,
}
use better_auth_rs_worker.Entity.{Instant, ApiKey, UpdateApiKey}
use better_auth_rs_worker.Entity.ApiKeys.{apply_update}
use better_auth_rs_worker.ApiKey.Keys.{KeysById}

-- Its uses are counted and never filled up.
abbrev pub is_metered : ApiKey → Bool
is_metered key = is_some key.remaining && is_none key.refill_amount

abbrev pub left_of : ApiKey → ℕ
left_of key = elim key.remaining [ none ↦ 0 | some r ↦ pos_part r ]

-- The key, where it is still stored, is metered and has at most `n` uses left.
pub record HasAtMost (k : String) (n : ℕ) (keys : HashMap ApiKey) : Type 0 where
  pub metered : (key : ApiKey) → get k keys ≡ some key → is_metered key ≡ true
  pub within : (key : ApiKey) → get k keys ≡ some key → left_of key ≤ n

module _ (k : String) (n : ℕ) (keys : HashMap ApiKey) (h : KeysById keys)
    (m : HasAtMost k n keys) where
  pub remove-HasAtMost : (j : String) → HasAtMost k n (remove j keys)
  remove-HasAtMost j = record {
    metered = λ key e. ground (arith, m.metered key, get-remove j k keys);
    within = λ key e. ground (arith, m.within key, get-remove j k keys);
  }

  pub retain-HasAtMost : (p : ApiKey → Bool) → HasAtMost k n (retain p keys)
  retain-HasAtMost p = record {
    metered = λ key e. ground (arith, m.metered key, get-retain p k keys h.unique);
    within = λ key e. ground (arith, m.within key, get-retain p k keys h.unique);
  }

pub remove-KeysById :
    (j : String) (keys : HashMap ApiKey) → KeysById keys → KeysById (remove j keys)
remove-KeysById j keys h = record {
  unique = remove-UniqueKeys j keys h.unique;
  by_id = λ k v e. ground (arith, h.by_id k v, get-remove j k keys);
}

pub retain-KeysById :
    (p : ApiKey → Bool) (keys : HashMap ApiKey) → KeysById keys → KeysById (retain p keys)
retain-KeysById p keys h = record {
  unique = retain-UniqueKeys p keys h.unique;
  by_id = λ k v e. ground (arith, h.by_id k v, get-retain p k keys h.unique);
}

pub modify-KeysById :
    (to_rfc3339 : Instant → String) (update : UpdateApiKey) (now : Instant) (j : String)
    (keys : HashMap ApiKey)
    → KeysById keys
    → KeysById (modify j (apply_update to_rfc3339 update now) keys)
unfolding apply_update
modify-KeysById to_rfc3339 update now j keys h = record {
  unique = modify-UniqueKeys j (apply_update to_rfc3339 update now) keys h.unique;
  by_id = λ k v e. elim (Option-cases (get k keys)) [
    | inl g ↦ absurd (ground (arith, get-modify j k (apply_update to_rfc3339 update now) keys))
    | inr (w, g) ↦
        ground (arith, h.by_id k w, get-modify j k (apply_update to_rfc3339 update now) keys)
  ];
}
