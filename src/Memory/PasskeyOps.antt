-- ===== src/Memory/PasskeyOps.antt =====
-- crates/core/src/adapters/memory.rs, `impl PasskeyOps`.
pub mod Credentials
use better_auth_rs_worker.Prelude.{
  ℕ, String, Option, none, some, List, ◌==◌, if◌then◌else◌, filter, leb, sort_by,
}
use better_auth_rs_worker.Error.{AuthResult, ok, err, conflict, not_found}
use better_auth_rs_worker.Action.{Action}
use better_auth_rs_worker.HashMap.{get, insert, remove, modify, contains_key, values}
use better_auth_rs_worker.Entity.{Instant, Passkey, CreatePasskey}
use better_auth_rs_worker.Entity.Passkeys.{from_create}
use better_auth_rs_worker.Memory.{MemoryDatabaseAdapter}

unfoldable pub create_passkey :
    CreatePasskey → AuthResult String → Instant → Action MemoryDatabaseAdapter Passkey
create_passkey input generated now db =
    if contains_key input.credential_id db.passkey_credential_index
    then (err (conflict "A passkey with this credential ID already exists"), db)
    else elim generated [
      | err e ↦ (err e, db)
      | ok id ↦
          let passkey = from_create id input now in
          (
            ok passkey,
            record db {
              passkey_credential_index = insert input.credential_id id db.passkey_credential_index;
              passkeys = insert id passkey db.passkeys;
            },
          )
    ]

unfoldable pub get_passkey_by_id : String → Action MemoryDatabaseAdapter (Option Passkey)
get_passkey_by_id id db = (ok (get id db.passkeys), db)

unfoldable pub get_passkey_by_credential_id : String → Action MemoryDatabaseAdapter (Option Passkey)
get_passkey_by_credential_id credential_id db = (
  ok (elim (get credential_id db.passkey_credential_index) [
    | none ↦ none
    | some id ↦ get id db.passkeys
  ]),
  db,
)

-- Newest first.
unfoldable pub list_passkeys_by_user : String → Action MemoryDatabaseAdapter (List Passkey)
list_passkeys_by_user user_id db = (
  ok (
      sort_by (λ a b. leb b.created_at a.created_at)
        (filter (λ p. p.user_id == user_id) (values db.passkeys))),
  db,
)

unfoldable pub update_passkey_counter : String → ℕ → Action MemoryDatabaseAdapter Passkey
update_passkey_counter id counter db = elim (get id db.passkeys) [
  | none ↦ (err (not_found "Passkey not found"), db)
  | some p ↦
      let changed = λ (p : Passkey). record p { counter = counter } in
      (ok (changed p), record db { passkeys = modify id changed db.passkeys })
]

unfoldable pub update_passkey_name : String → String → Action MemoryDatabaseAdapter Passkey
update_passkey_name id name db = elim (get id db.passkeys) [
  | none ↦ (err (not_found "Passkey not found"), db)
  | some p ↦
      let changed = λ (p : Passkey). record p { name = name } in
      (ok (changed p), record db { passkeys = modify id changed db.passkeys })
]

unfoldable pub delete_passkey : String → Action MemoryDatabaseAdapter Unit
delete_passkey id db = elim (get id db.passkeys) [
  | none ↦ (ok tt, db)
  | some p ↦ (
    ok tt,
    record db {
      passkeys = remove id db.passkeys;
      passkey_credential_index = remove p.credential_id db.passkey_credential_index;
    },
  )
]
