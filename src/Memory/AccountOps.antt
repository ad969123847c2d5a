-- ===== src/Memory/AccountOps.antt =====
-- crates/core/src/adapters/memory.rs, `impl AccountOps`.
use better_auth_rs_worker.Prelude.{String, ◌&&◌, Option, none, some, List, ◌==◌, filter, find}
use better_auth_rs_worker.Error.{AuthResult, ok, err, not_found}
use better_auth_rs_worker.Action.{Action}
use better_auth_rs_worker.HashMap.{get, insert, remove, modify, values}
use better_auth_rs_worker.Entity.{Instant, Account, CreateAccount, UpdateAccount}
use better_auth_rs_worker.Entity.Accounts.{from_create, apply_update}
use better_auth_rs_worker.Memory.{MemoryDatabaseAdapter}

unfoldable pub create_account :
    CreateAccount → AuthResult String → Instant → Action MemoryDatabaseAdapter Account
create_account create generated now db = elim generated [
  | err e ↦ (err e, db)
  | ok id ↦
      let account = from_create id create now in
      (ok account, record db { accounts = insert id account db.accounts })
]

unfoldable pub get_account : String → String → Action MemoryDatabaseAdapter (Option Account)
get_account provider provider_account_id db = (
  ok (
      find (λ a. a.provider_id == provider && a.account_id == provider_account_id)
        (values db.accounts)),
  db,
)

unfoldable pub get_user_accounts : String → Action MemoryDatabaseAdapter (List Account)
get_user_accounts user_id db = (ok (filter (λ a. a.user_id == user_id) (values db.accounts)), db)

unfoldable pub update_account :
    String → UpdateAccount → Instant → Action MemoryDatabaseAdapter Account
update_account id update now db = elim (get id db.accounts) [
  | none ↦ (err (not_found "Account not found"), db)
  | some account ↦ (
    ok (apply_update update now account),
    record db { accounts = modify id (apply_update update now) db.accounts },
  )
]

unfoldable pub delete_account : String → Action MemoryDatabaseAdapter Unit
delete_account id db = (ok tt, record db { accounts = remove id db.accounts })
