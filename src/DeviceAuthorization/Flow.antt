-- ===== src/DeviceAuthorization/Flow.antt =====
-- A pair of codes from the decision of the user to the next poll of the device.
use better_auth_rs_worker.Prelude.{
  ℕ, String, concat, ◌≡◌, ◌≢◌, refl, sym, ap, ◌∙◌, Bool, true, false, ◌&&◌, none, some, List, [],
  ◌∷◌, ◌==◌, eq_iff, eq_refl, eq_false, arith, filter, find, ltb, inl, inr, Bool-cases,
}
use Prim.Native.Char.{code}
use Prim.Native.String.{[] as empty_text, ◌∷◌ as text_cons}
use Prim.Native.String.append.{cons}
use better_auth_rs_worker.Error.{ok, err, not_found}
use better_auth_rs_worker.HashMap.{HashMap, get, insert, remove, values}
use better_auth_rs_worker.HashMap.Keys.{UniqueKeys, remove-UniqueKeys, get-remove-none}
use better_auth_rs_worker.HashMap.Laws.{get-remove}
use better_auth_rs_worker.Entity.{Verification}
use better_auth_rs_worker.Entity.Verifications.{from_create}
use better_auth_rs_worker.Memory.{MemoryDatabaseAdapter}
use better_auth_rs_worker.Memory.VerificationOps.{
  create_verification, get_verification_by_identifier, delete_verification,
}
use better_auth_rs_worker.DeviceAuthorization.{
  Codec, StoredVerification, Readings, device_code_identifier, user_code_identifier, decide_device,
  store_device_authorization, by_status, poll_device_token_core,
}
use better_auth_rs_worker.Session.{SessionConfig}
use better_auth_rs_worker.DeviceAuthorization.Rows.{
  filter-insert, filter-remove_other, filter-remove_only, filter_none-get, find-filter,
}

-- The two kinds of identifier differ in their first letter.
first_code : String → ℕ
first_code empty_text = 0
first_code (text_cons c s) = code c

device_first : (a : String) → device_code_identifier a ≡ text_cons "d" (concat "evice_code:" a)
device_first a = cons "d" "evice_code:" a

user_first : (a : String) → user_code_identifier a ≡ text_cons "u" (concat "ser_code:" a)
user_first a = cons "u" "ser_code:" a

identifiers_differ : (a b : String) → device_code_identifier a ≢ user_code_identifier b
unfolding first_code
identifiers_differ a b e =
    let same : first_code (text_cons "d" (concat "evice_code:" a))
        ≡ first_code (text_cons "u" (concat "ser_code:" b)) =
      ap first_code (sym (device_first a) ∙ e ∙ user_first b) in
    absurd (omega (arith, same))

abbrev pub has_identifier : String → Verification → Bool
has_identifier identifier v = v.identifier == identifier

-- The rows under an identifier.
abbrev pub rows : String → HashMap Verification → List Verification
rows identifier m = filter (has_identifier identifier) (values m)

-- A search by identifier finds the only row, where it is live.
lookup_only :
    (identifier : String) (now : ℕ) (v : Verification) (m : HashMap Verification)
    → rows identifier m ≡ v ∷ []
    → ltb now v.expires_at ≡ true
    → find (λ x. x.identifier == identifier && ltb now x.expires_at) (values m) ≡ some v
lookup_only identifier now v m e l =
    ground (arith, find-filter (has_identifier identifier) (λ x. ltb now x.expires_at) (values m))

lookup-none :
    (identifier : String) (now : ℕ) (m : HashMap Verification)
    → rows identifier m ≡ []
    → find (λ x. x.identifier == identifier && ltb now x.expires_at) (values m) ≡ none
lookup-none identifier now m e =
    ground (arith, find-filter (has_identifier identifier) (λ x. ltb now x.expires_at) (values m))

-- A pair of codes that waits for a decision: one row for each code, under its id, and the row of the
-- user code can be read.
pub record IsOpen (codec : Codec) (device_code user_code : String) (stored : StoredVerification)
    (d r : Verification) (m : HashMap Verification) : Type 0 where
  pub unique : UniqueKeys m
  pub device_row : rows (device_code_identifier device_code) m ≡ d ∷ []
  pub device_key : get d.id m ≡ some d
  pub user_row : rows (user_code_identifier user_code) m ≡ r ∷ []
  pub user_key : get r.id m ≡ some r
  pub of_device : d.identifier ≡ device_code_identifier device_code
  pub of_user : r.identifier ≡ user_code_identifier user_code
  pub readable : codec.from_str r.value ≡ ok stored
  pub codes : stored.device.device_code ≡ device_code

module _ (codec : Codec) (device_code user_code : String) (stored : StoredVerification)
    (d r : Verification) (db : MemoryDatabaseAdapter)
    (h : IsOpen codec device_code user_code stored d r db.verifications) where
  -- The table without the two rows.
  abbrev pub cleared : HashMap Verification
  cleared = remove r.id (remove d.id db.verifications)

  different : (device_code_identifier device_code == user_code_identifier user_code) ≡ false
  different =
      eq_false (device_code_identifier device_code) (user_code_identifier user_code)
        (identifiers_differ device_code user_code)

  rows_apart : (d.id == r.id) ≡ false
  rows_apart = elim (Bool-cases (d.id == r.id)) [
    | inr q ↦ q
    | inl q ↦
        let same : d ≡ r = ground (arith, h.device_key, h.user_key, eq_iff d.id r.id) in
        absurd (
          identifiers_differ device_code user_code
            (sym h.of_device ∙ ap (λ v. v.identifier) same ∙ h.of_user))
  ]

  user_key_left : get r.id (remove d.id db.verifications) ≡ some r
  user_key_left = ground (arith, h.user_key, rows_apart, get-remove d.id r.id db.verifications)

  no_device_rows : rows (device_code_identifier device_code) cleared ≡ []
  no_device_rows =
      let p = has_identifier (device_code_identifier device_code) in
      let m = remove d.id db.verifications in
      let empty : filter p (values m) ≡ [] =
        filter-remove_only p d.id d db.verifications h.unique h.device_key h.device_row
          (ground (arith, h.of_device, eq_iff d.identifier (device_code_identifier device_code))) in
      filter-remove_other p r.id r m (remove-UniqueKeys d.id db.verifications h.unique)
        user_key_left (filter_none-get p r.id r m user_key_left empty)
      ∙ empty

  no_user_rows : rows (user_code_identifier user_code) cleared ≡ []
  no_user_rows =
      let p = has_identifier (user_code_identifier user_code) in
      let m = remove d.id db.verifications in
      let other : p d ≡ false = ground (
        arith,
        h.of_device,
        different,
        eq_iff d.identifier (user_code_identifier user_code),
        eq_iff (device_code_identifier device_code) (user_code_identifier user_code),
      ) in
      filter-remove_only p r.id r m (remove-UniqueKeys d.id db.verifications h.unique) user_key_left
        (filter-remove_other p d.id d db.verifications h.unique h.device_key other ∙ h.user_row)
        (ground (arith, h.of_user, eq_iff r.identifier (user_code_identifier user_code)))

  module _ (t : Readings) (user_live : ltb t.looked_up r.expires_at ≡ true)
      (device_live : ltb t.tested d.expires_at ≡ true) (new_id : String)
      (drawn : t.stored.id ≡ ok new_id) (fresh : get new_id db.verifications ≡ none)
      (change : StoredVerification → StoredVerification)
      (same_code : (change stored).device.device_code ≡ stored.device.device_code) (value : String)
      (printed : codec.to_string (change stored) ≡ ok value)
      (reads_back : codec.from_str value ≡ ok (change stored)) where
    -- The row that a decision writes, and the table with it.
    abbrev pub new_row : Verification
    new_row =
        from_create new_id
          (record {
            identifier = device_code_identifier (change stored).device.device_code;
            value = value;
            expires_at = (change stored).device.expires_at;
          })
          t.stored.at

    abbrev pub decided : MemoryDatabaseAdapter
    decided = record db { verifications = insert new_id new_row cleared }

    changed_code : (change stored).device.device_code ≡ device_code
    changed_code = same_code ∙ h.codes

    fresh_left : get new_id cleared ≡ none
    fresh_left =
        get-remove-none r.id new_id (remove d.id db.verifications)
          (get-remove-none d.id new_id db.verifications fresh)

    pub decide_device_lem : decide_device codec change user_code t db ≡ (ok tt, decided)
    unfolding decide_device get_verification_by_identifier delete_verification
        store_device_authorization create_verification
    decide_device_lem =
        let found_user =
          lookup_only (user_code_identifier user_code) t.looked_up r db.verifications h.user_row
            user_live in
        let found_device : find
              (λ x.
                x.identifier == device_code_identifier (change stored).device.device_code
                && ltb t.tested x.expires_at)
              (values db.verifications)
            ≡ some d =
          rw changed_code (
            lookup_only (device_code_identifier device_code) t.tested d db.verifications
              h.device_row device_live) in
        rw (found_user, h.readable, found_device, printed, drawn) refl

    pub device_rows_decided :
        rows (device_code_identifier device_code) decided.verifications ≡ new_row ∷ []
    unfolding from_create
    device_rows_decided =
        let p = has_identifier (device_code_identifier device_code) in
        let own : p new_row ≡ true =
          rw changed_code (eq_refl (device_code_identifier device_code)) in
        ground (arith, own, no_device_rows, filter-insert p new_id new_row cleared fresh_left)

    user_rows_decided : rows (user_code_identifier user_code) decided.verifications ≡ []
    unfolding from_create
    user_rows_decided =
        let p = has_identifier (user_code_identifier user_code) in
        let other : p new_row ≡ false = rw changed_code different in
        ground (arith, other, no_user_rows, filter-insert p new_id new_row cleared fresh_left)

    -- The next poll reads what was decided.
    pub poll_decided :
        (sessions : SessionConfig) (t' : Readings)
        → ltb t'.looked_up (change stored).device.expires_at ≡ true
        → poll_device_token_core codec sessions device_code t' decided
          ≡ by_status codec sessions
              (change stored).device.status
              (device_code_identifier device_code)
              new_row
              (change stored)
              t'
              decided
    unfolding poll_device_token_core get_verification_by_identifier from_create
    poll_decided sessions t' live =
        let found =
          lookup_only (device_code_identifier device_code) t'.looked_up new_row
            decided.verifications device_rows_decided live in
        rw (found, reads_back) refl

    -- The user code is used up.
    pub decide_again :
        (other : StoredVerification → StoredVerification) (t' : Readings)
        → decide_device codec other user_code t' decided ≡ (err (not_found "Invalid code"), decided)
    unfolding decide_device get_verification_by_identifier
    decide_again other t' =
        rw
          (lookup-none (user_code_identifier user_code) t'.looked_up decided.verifications
            user_rows_decided)
          refl
