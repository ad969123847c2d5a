-- ===== src/Memory/VerificationOps.antt =====
-- crates/core/src/adapters/memory.rs, `impl VerificationOps`. A stored value is live while its
-- expiry lies after the clock's reading.
pub mod Consume
use better_auth_rs_worker.Prelude.{
  ℕ, ◌-◌, String, Bool, ◌&&◌, Option, none, some, List, [], ◌∷◌, ◌==◌, find, ltb, leb,
  if◌then◌else◌,
}
use better_auth_rs_worker.Error.{AuthResult, ok, err}
use better_auth_rs_worker.Action.{Action}
use better_auth_rs_worker.HashMap.{HashMap, get, insert, remove, retain, values, len}
use better_auth_rs_worker.Entity.{Instant, Verification, CreateVerification}
use better_auth_rs_worker.Entity.Verifications.{from_create}
use better_auth_rs_worker.Memory.{MemoryDatabaseAdapter}

unfoldable pub create_verification :
    CreateVerification → AuthResult String → Instant → Action MemoryDatabaseAdapter Verification
create_verification create generated now db = elim generated [
  | err e ↦ (err e, db)
  | ok id ↦
      let verification = from_create id create now in
      (ok verification, record db { verifications = insert id verification db.verifications })
]

-- The test of `get_verification` and `consume_verification`.
abbrev pub matches : String → String → Instant → Verification → Bool
matches identifier value now v =
    v.identifier == identifier && v.value == value && ltb now v.expires_at

unfoldable pub get_verification :
    String → String → Instant → Action MemoryDatabaseAdapter (Option Verification)
get_verification identifier value now db =
    (ok (find (matches identifier value now) (values db.verifications)), db)

unfoldable pub get_verification_by_value :
    String → Instant → Action MemoryDatabaseAdapter (Option Verification)
get_verification_by_value value now db =
    (ok (find (λ v. v.value == value && ltb now v.expires_at) (values db.verifications)), db)

unfoldable pub get_verification_by_identifier :
    String → Instant → Action MemoryDatabaseAdapter (Option Verification)
get_verification_by_identifier identifier now db = (
  ok (find (λ v. v.identifier == identifier && ltb now v.expires_at) (values db.verifications)),
  db,
)

-- `max_by_key` over the entries that match: the last of those created last, with its id.
unfoldable pub newest :
    (Verification → Bool) → HashMap Verification → Option (String × Verification)
newest p [] = none
newest p ((id, v) ∷ m) =
    let rest = newest p m in
    if p v
    then elim rest [
      | none ↦ some (id, v)
      | some (j, w) ↦ if leb v.created_at w.created_at then some (j, w) else some (id, v)
    ]
    else rest

unfoldable pub consume_verification :
    String → String → Instant → Action MemoryDatabaseAdapter (Option Verification)
consume_verification identifier value now db =
    elim (newest (matches identifier value now) db.verifications) [
      | none ↦ (ok none, db)
      | some (id, _) ↦
          (ok (get id db.verifications), record db { verifications = remove id db.verifications })
    ]

unfoldable pub delete_verification : String → Action MemoryDatabaseAdapter Unit
delete_verification id db = (ok tt, record db { verifications = remove id db.verifications })

unfoldable pub delete_expired_verifications : Instant → Action MemoryDatabaseAdapter ℕ
delete_expired_verifications now db =
    let kept = retain (λ v. ltb now v.expires_at) db.verifications in
    (ok (len db.verifications - len kept), record db { verifications = kept })
