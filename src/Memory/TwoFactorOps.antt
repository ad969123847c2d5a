-- ===== src/Memory/TwoFactorOps.antt =====
-- crates/core/src/adapters/memory.rs, `impl TwoFactorOps`.
use better_auth_rs_worker.Prelude.{
  String, Bool, not, Option, none, some, [], ◌∷◌, ◌==◌, if◌then◌else◌, find, any,
}
use better_auth_rs_worker.Error.{AuthResult, ok, err, conflict, not_found}
use better_auth_rs_worker.Action.{Action}
use better_auth_rs_worker.HashMap.{HashMap, insert, retain, values}
use better_auth_rs_worker.Entity.{Instant, TwoFactor, CreateTwoFactor}
use better_auth_rs_worker.Entity.TwoFactors.{from_create}
use better_auth_rs_worker.Memory.{MemoryDatabaseAdapter}

unfoldable pub create_two_factor :
    CreateTwoFactor → AuthResult String → Instant → Action MemoryDatabaseAdapter TwoFactor
create_two_factor create generated now db =
    if any (λ tf. tf.user_id == create.user_id) (values db.two_factors)
    then (err (conflict "Two-factor authentication already enabled for this user"), db)
    else elim generated [
      | err e ↦ (err e, db)
      | ok id ↦
          let two_factor = from_create id create now in
          (ok two_factor, record db { two_factors = insert id two_factor db.two_factors })
    ]

unfoldable pub get_two_factor_by_user_id : String → Action MemoryDatabaseAdapter (Option TwoFactor)
get_two_factor_by_user_id user_id db =
    (ok (find (λ tf. tf.user_id == user_id) (values db.two_factors)), db)

-- `values_mut().find(p)` and an update in place of what it finds
abbrev modify_first :
    (TwoFactor → Bool) → (TwoFactor → TwoFactor) → HashMap TwoFactor → HashMap TwoFactor
modify_first p f [] = []
modify_first p f ((id, tf) ∷ m) = if p tf then (id, f tf) ∷ m else (id, tf) ∷ modify_first p f m

unfoldable pub update_two_factor_backup_codes :
    String → String → Action MemoryDatabaseAdapter TwoFactor
update_two_factor_backup_codes user_id backup_codes db =
    elim (find (λ tf. tf.user_id == user_id) (values db.two_factors)) [
      | none ↦ (err (not_found "Two-factor record not found"), db)
      | some tf ↦
          let changed = λ (tf : TwoFactor). record tf { backup_codes = some backup_codes } in
          (
            ok (changed tf),
            record db {
              two_factors = modify_first (λ tf. tf.user_id == user_id) changed db.two_factors;
            },
          )
    ]

unfoldable pub delete_two_factor : String → Action MemoryDatabaseAdapter Unit
delete_two_factor user_id db =
    (ok tt, record db { two_factors = retain (λ tf. not (tf.user_id == user_id)) db.two_factors })
