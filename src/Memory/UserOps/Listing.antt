-- ===== src/Memory/UserOps/Listing.antt =====
-- crates/core/src/adapters/memory.rs, `list_users`: search, filter, order and page. Unicode
-- `to_lowercase` and the printer of instants are parameters.
use better_auth_rs_worker.Prelude.{skip, take}
use better_auth_rs_worker.Prelude.{
  ℕ, ◌-◌, String, len, Bool, true, not, ◌&&◌, Option, none, some, List, ◌==◌, if◌then◌else◌, leb,
  leb_text, filter, length, get_or, is_some,
}
use better_auth_rs_worker.Prelude.{sort_by as sort}
use Prim.Native.String.{slice}
use text.Mathlib.Text.{starts_with, find?}
use better_auth_rs_worker.Error.{ok}
use better_auth_rs_worker.Action.{Action}
use better_auth_rs_worker.HashMap.{values}
use better_auth_rs_worker.Entity.{Instant, User}
use better_auth_rs_worker.Memory.{MemoryDatabaseAdapter}

pub record ListUsersParams : Type 0 where
  pub limit : Option ℕ
  pub offset : Option ℕ
  pub search_field : Option String
  pub search_value : Option String
  pub search_operator : Option String
  pub sort_by : Option String
  pub sort_direction : Option String
  pub filter_field : Option String
  pub filter_value : Option String
  pub filter_operator : Option String

-- `str::contains` and `str::ends_with`
abbrev contains : String → String → Bool
contains s t = is_some (find? s t)

abbrev ends_with : String → String → Bool
ends_with s t = leb (len t) (len s) && (slice s (len s - len t) (len s) == t)

-- The tests that the operators name.
abbrev search_test : String → String → String → Bool
search_test op field_val sv =
    if op == "starts_with"
    then starts_with field_val sv
    else if op == "ends_with"
    then ends_with field_val sv
    else contains field_val sv

abbrev filter_test : String → String → String → Bool
filter_test op field_val fv =
    if op == "contains"
    then contains field_val fv
    else if op == "starts_with"
    then starts_with field_val fv
    else if op == "ends_with"
    then ends_with field_val fv
    else if op == "ne"
    then not (field_val == fv)
    else field_val == fv

module _ (to_lowercase : String → String) (to_rfc3339 : Instant → String)
    (params : ListUsersParams) where
  unfoldable pub is_found : User → Bool
  is_found u = elim params.search_value [
    | none ↦ true
    | some search_value ↦
        let field : String = get_or params.search_field "email" in
        let field_val : String =
          to_lowercase (if field == "name" then get_or u.name "" else get_or u.email "") in
        search_test (get_or params.search_operator "contains") field_val (to_lowercase search_value)
  ]

  unfoldable pub is_kept : User → Bool
  is_kept u = elim params.filter_value [
    | none ↦ true
    | some filter_value ↦
        let field : String = get_or params.filter_field "email" in
        let field_val : String = to_lowercase (
          if field == "name"
          then get_or u.name ""
          else if field == "role"
          then get_or u.role ""
          else get_or u.email "") in
        filter_test (get_or params.filter_operator "eq") field_val (to_lowercase filter_value)
  ]

  abbrev sort_value : String → User → String
  sort_value by u =
      if by == "name"
      then get_or u.name ""
      else if by == "createdAt"
      then to_rfc3339 u.created_at
      else get_or u.email ""

  -- Whether the first may stand before the second.
  abbrev before : String → User → User → Bool
  before by a b =
      if get_or params.sort_direction "" == "desc"
      then leb_text (sort_value by b) (sort_value by a)
      else leb_text (sort_value by a) (sort_value by b)

  abbrev in_order : List User → List User
  in_order users = elim params.sort_by [ none ↦ users | some by ↦ sort (before by) users ]

  -- The users that pass both tests, in order.
  unfoldable pub selected : List User → List User
  selected users = in_order (filter is_kept (filter is_found users))

  unfoldable pub list_users : Action MemoryDatabaseAdapter (List User × ℕ)
  list_users db =
      let result : List User = selected (values db.users) in
      (
        ok (take (get_or params.limit 100) (skip (get_or params.offset 0) result), length result),
        db,
      )
