-- ===== src/Memory/PasskeyOps/Credentials.antt =====
-- The credential index of the passkey table.
use better_auth_rs_worker.Prelude.{
  ℕ, String, ◌≡◌, refl, Option, none, some, arith, inl, inr, Option-cases, ◌↔◌,
}
use better_auth_rs_worker.Error.{AuthResult, ok, AuthResult-cases}
use better_auth_rs_worker.HashMap.{get, contains_key}
use better_auth_rs_worker.HashMap.Index.{
  IsIndexed, insert-IsIndexed, remove-IsIndexed, modify-IsIndexed_same,
}
use better_auth_rs_worker.Entity.{Instant, Passkey, CreatePasskey}
use better_auth_rs_worker.Entity.Passkeys.{from_create}
use better_auth_rs_worker.Memory.{MemoryDatabaseAdapter, new}
use better_auth_rs_worker.Memory.PasskeyOps.{
  create_passkey, get_passkey_by_credential_id, update_passkey_counter, update_passkey_name,
  delete_passkey,
}

abbrev pub credential_of : Passkey → Option String
credential_of p = some p.credential_id

abbrev pub CredentialsIndexed : MemoryDatabaseAdapter → Type 0
CredentialsIndexed db = IsIndexed credential_of db.passkeys db.passkey_credential_index

-- One call that writes passkeys; a creation needs an id that is not in use.
pub data Step (db : MemoryDatabaseAdapter) : MemoryDatabaseAdapter → Type 0 where
  creates :
      (input : CreatePasskey) (generated : AuthResult String) (now : Instant)
      → ((id : String) → generated ≡ ok id → get id db.passkeys ≡ none)
      → Step db (create_passkey input generated now db).1
  counts : (id : String) (counter : ℕ) → Step db (update_passkey_counter id counter db).1
  renames : (id name : String) → Step db (update_passkey_name id name db).1
  deletes : (id : String) → Step db (delete_passkey id db).1

pub data Reach : MemoryDatabaseAdapter → Type 0 where
  start : Reach new
  next : {db db' : MemoryDatabaseAdapter} → Reach db → Step db db' → Reach db'

module _ (db : MemoryDatabaseAdapter) (h : CredentialsIndexed db) where
  create_passkey-CredentialsIndexed :
      (input : CreatePasskey) (generated : AuthResult String) (now : Instant)
      → ((id : String) → generated ≡ ok id → get id db.passkeys ≡ none)
      → CredentialsIndexed (create_passkey input generated now db).1
  unfolding create_passkey from_create contains_key
  create_passkey-CredentialsIndexed input generated now fresh =
      elim (Option-cases (get input.credential_id db.passkey_credential_index)) [
        | inr (i, q) ↦ rw (q, create_passkey) h
        | inl q ↦ elim (AuthResult-cases generated) [
          | inr (e, p) ↦ rw (q, create_passkey, p) h
          | inl (id, p) ↦
              rw (q, create_passkey, p)
                (insert-IsIndexed credential_of id (from_create id input now) db.passkeys
                  db.passkey_credential_index h (fresh id p) (λ k e. ground arith))
        ]
      ]

  delete_passkey-CredentialsIndexed : (id : String) → CredentialsIndexed (delete_passkey id db).1
  unfolding delete_passkey
  delete_passkey-CredentialsIndexed id = elim (Option-cases (get id db.passkeys)) [
    | inl e ↦ rw (e, delete_passkey) h
    | inr (p, e) ↦
        rw (e, delete_passkey)
          (remove-IsIndexed credential_of id p db.passkeys db.passkey_credential_index h e)
  ]

  update_passkey_counter-CredentialsIndexed :
      (id : String) (counter : ℕ) → CredentialsIndexed (update_passkey_counter id counter db).1
  unfolding update_passkey_counter
  update_passkey_counter-CredentialsIndexed id counter = elim (Option-cases (get id db.passkeys)) [
    | inl e ↦ rw (e, update_passkey_counter) h
    | inr (p, e) ↦
        rw (e, update_passkey_counter)
          (modify-IsIndexed_same credential_of id p db.passkeys db.passkey_credential_index h _ e
            refl)
  ]

  update_passkey_name-CredentialsIndexed :
      (id name : String) → CredentialsIndexed (update_passkey_name id name db).1
  unfolding update_passkey_name
  update_passkey_name-CredentialsIndexed id name = elim (Option-cases (get id db.passkeys)) [
    | inl e ↦ rw (e, update_passkey_name) h
    | inr (p, e) ↦
        rw (e, update_passkey_name)
          (modify-IsIndexed_same credential_of id p db.passkeys db.passkey_credential_index h _ e
            refl)
  ]

Step-CredentialsIndexed :
    {db db' : MemoryDatabaseAdapter} → Step db db' → CredentialsIndexed db → CredentialsIndexed db'
Step-CredentialsIndexed {db} (creates input generated now fresh) h =
    create_passkey-CredentialsIndexed db h input generated now fresh
Step-CredentialsIndexed {db} (counts id counter) h =
    update_passkey_counter-CredentialsIndexed db h id counter
Step-CredentialsIndexed {db} (renames id name) h =
    update_passkey_name-CredentialsIndexed db h id name
Step-CredentialsIndexed {db} (deletes id) h = delete_passkey-CredentialsIndexed db h id

Reach-CredentialsIndexed : {db : MemoryDatabaseAdapter} → Reach db → CredentialsIndexed db
unfolding get
Reach-CredentialsIndexed start = record {
  sound = λ k id e. absurd (ground arith);
  complete = λ k id e. absurd (ground arith);
}
Reach-CredentialsIndexed (next r s) = Step-CredentialsIndexed s (Reach-CredentialsIndexed r)

-- In every store that creations under ids not in use, updates and deletions of passkeys reach
-- from the empty one, the lookup by credential id returns a passkey exactly when it is stored,
-- under some id, with that credential id.
pub get_passkey_by_credential_id_iff :
    {db : MemoryDatabaseAdapter} (credential_id : String) (p : Passkey)
    → Reach db
    → ((get_passkey_by_credential_id credential_id db).0 ≡ ok (some p))
      ↔ ((id : String) × (get id db.passkeys ≡ some p) × (p.credential_id ≡ credential_id))
unfolding get_passkey_by_credential_id
get_passkey_by_credential_id_iff {db} c p r = (found, held)
  where
    h : CredentialsIndexed db
    h = Reach-CredentialsIndexed r

    found :
        (get_passkey_by_credential_id c db).0 ≡ ok (some p)
        → (id : String) × (get id db.passkeys ≡ some p) × (p.credential_id ≡ c)
    found e = elim (Option-cases (get c db.passkey_credential_index)) [
      | inl q ↦ absurd (ground arith)
      | inr (id, q) ↦ (id, ground arith, ground (arith, h.sound c id q))
    ]

    held :
        (id : String) × (get id db.passkeys ≡ some p) × (p.credential_id ≡ c)
        → (get_passkey_by_credential_id c db).0 ≡ ok (some p)
    held (id, e, q) = ground (arith, h.complete c id)
