-- ===== src/ApiKey/Permissions.antt =====
-- crates/api/src/plugins/api_key/handlers.rs, `check_permissions`.
use better_auth_rs_worker.Prelude.{
  String, Bool, true, false, ◌&&◌, Option, none, some, List, [], ◌∷◌, ◌==◌, if◌then◌else◌, any, all,
  get_or, and_then_some,
}
use better_auth_rs_worker.HashMap.{HashMap, get}
use better_auth_rs_worker.ApiKey.{Libraries}

module _ {Value Limiter : Type 0} (lib : Libraries Value Limiter) where
  -- An action that is a text and is in the list.
  unfoldable pub allows : List String → Value → Bool
  allows allowed_actions action_val = elim (lib.as_str action_val) [
    | none ↦ false
    | some action ↦ any (λ a. a == action) allowed_actions
  ]

  -- The member of an object.
  abbrev pub member_of : String → List (String × Value) → Option Value
  member_of name [] = none
  member_of name ((k, v) ∷ rest) = if k == name then some v else member_of name rest

  -- The object form, with its connector: at least one of the actions, or all.
  unfoldable pub allows_object : List String → List (String × Value) → Bool
  allows_object allowed_actions obj = elim (and_then_some (member_of "actions" obj) lib.as_array) [
    | none ↦ false
    | some actions ↦
        let connector : String =
          get_or (and_then_some (member_of "connector" obj) lib.as_str) "AND" in
        if connector == "OR"
        then any (allows allowed_actions) actions
        else all (allows allowed_actions) actions
  ]

  -- One turn of the loop.
  unfoldable pub allows_request : List String → Value → Bool
  allows_request allowed_actions requested = elim (lib.as_array requested) [
    | some actions ↦ all (allows allowed_actions) actions
    | none ↦ elim (lib.as_object requested) [
      | some obj ↦ allows_object allowed_actions obj
      | none ↦ false
    ]
  ]

  -- The loop over the required resources.
  unfoldable pub covers : HashMap (List String) → List (String × Value) → Bool
  covers key_map [] = true
  covers key_map ((resource, requested) ∷ rest) =
      elim (get resource key_map) [
        | none ↦ false
        | some allowed_actions ↦ allows_request allowed_actions requested
      ]
      && covers key_map rest

  unfoldable pub check_permissions : String → Value → Bool
  check_permissions key_permissions required = elim (lib.as_object required) [
    | none ↦ false
    | some required_map ↦ elim (lib.permissions_from key_permissions) [
      | none ↦ false
      | some key_map ↦ covers key_map required_map
    ]
  ]
