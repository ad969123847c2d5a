-- ===== src/Memory/ApiKeyOps.antt =====
-- crates/core/src/adapters/memory.rs, `impl ApiKeyOps`. `to_rfc3339` and `parse_from_rfc3339` are
-- the date library's printer and parser of instants; instants before the epoch are left out.
use better_auth_rs_worker.Prelude.{
  ℕ, ◌-◌, String, Bool, true, Option, none, some, ◌==◌, if◌then◌else◌, List, filter, find, any, ltb,
  sort_by, leb_text,
}
use better_auth_rs_worker.Error.{AuthResult, ok, err, conflict, not_found}
use better_auth_rs_worker.Action.{Action}
use better_auth_rs_worker.HashMap.{get, insert, remove, modify, retain, values, len}
use better_auth_rs_worker.Entity.{Instant, ApiKey, CreateApiKey, UpdateApiKey}
use better_auth_rs_worker.Entity.ApiKeys.{from_create, apply_update}
use better_auth_rs_worker.Memory.{MemoryDatabaseAdapter}

unfoldable pub create_api_key :
    (Instant → String)
    → CreateApiKey
    → AuthResult String
    → Instant
    → Action MemoryDatabaseAdapter ApiKey
create_api_key to_rfc3339 input generated now db =
    if any (λ k. k.key_hash == input.key_hash) (values db.api_keys)
    then (err (conflict "API key already exists"), db)
    else elim generated [
      | err e ↦ (err e, db)
      | ok id ↦
          let api_key = from_create to_rfc3339 id input now in
          (ok api_key, record db { api_keys = insert id api_key db.api_keys })
    ]

unfoldable pub get_api_key_by_id : String → Action MemoryDatabaseAdapter (Option ApiKey)
get_api_key_by_id id db = (ok (get id db.api_keys), db)

unfoldable pub get_api_key_by_hash : String → Action MemoryDatabaseAdapter (Option ApiKey)
get_api_key_by_hash hash db = (ok (find (λ k. k.key_hash == hash) (values db.api_keys)), db)

-- Newest first, by the texts of the times of creation.
unfoldable pub list_api_keys_by_user : String → Action MemoryDatabaseAdapter (List ApiKey)
list_api_keys_by_user user_id db = (
  ok (
      sort_by (λ a b. leb_text b.created_at a.created_at)
        (filter (λ k. k.user_id == user_id) (values db.api_keys))),
  db,
)

unfoldable pub update_api_key :
    (Instant → String) → String → UpdateApiKey → Instant → Action MemoryDatabaseAdapter ApiKey
update_api_key to_rfc3339 id update now db = elim (get id db.api_keys) [
  | none ↦ (err (not_found "API key not found"), db)
  | some k ↦ (
    ok (apply_update to_rfc3339 update now k),
    record db { api_keys = modify id (apply_update to_rfc3339 update now) db.api_keys },
  )
]

unfoldable pub delete_api_key : String → Action MemoryDatabaseAdapter Unit
delete_api_key id db = (ok tt, record db { api_keys = remove id db.api_keys })

-- Whether the expiry, where there is one that can be read, lies after `now`.
abbrev pub is_kept : (String → Option Instant) → Instant → ApiKey → Bool
is_kept parse_from_rfc3339 now k = elim k.expires_at [
  | none ↦ true
  | some expires_at ↦ elim (parse_from_rfc3339 expires_at) [ none ↦ true | some exp ↦ ltb now exp ]
]

unfoldable pub delete_expired_api_keys :
    (String → Option Instant) → Instant → Action MemoryDatabaseAdapter ℕ
delete_expired_api_keys parse_from_rfc3339 now db =
    let kept = retain (is_kept parse_from_rfc3339 now) db.api_keys in
    (ok (len db.api_keys - len kept), record db { api_keys = kept })
