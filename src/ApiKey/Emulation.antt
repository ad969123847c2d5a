-- ===== src/ApiKey/Emulation.antt =====
-- crates/api/src/plugins/api_key/mod.rs, `before_request`: a request with an API key is served as if
-- its user had a session.
use better_auth_rs_worker.Prelude.{String, not, ◌||◌, Option, none, some, ◌==◌, if◌then◌else◌}
use text.Mathlib.Text.{starts_with}
use better_auth_rs_worker.Error.{ok, err, bad_request}
use better_auth_rs_worker.Action.{Action, pure, raise, ◌>>=◌}
use better_auth_rs_worker.HashMap.{get}
use better_auth_rs_worker.Http.{AuthRequest}
use better_auth_rs_worker.Entity.{User}
use better_auth_rs_worker.Memory.UserOps.{get_user_by_id}
use better_auth_rs_worker.ApiKey.{
  ApiKeyErrorCode, ApiKeyConfig, Libraries, State, Readings, api_key_error, on_database,
}
use better_auth_rs_worker.ApiKey.Requests.{ApiKeyView}
use better_auth_rs_worker.ApiKey.Validate.{valid, invalid, validate_api_key}

-- `BeforeRequestAction`; the body of the response holds the user's id, address and name, and the
-- session's id, token and user id.
pub record EmulatedSession : Type 0 where
  pub user : User
  pub id : String
  pub token : String
  pub user_id : String

pub data BeforeRequestAction : Type 0 where
  respond : EmulatedSession → BeforeRequestAction
  inject_session : (user_id session_token : String) → BeforeRequestAction

module _ {Value Limiter : Type 0} (lib : Libraries Value Limiter) (config : ApiKeyConfig) where
  -- `before_request` once the key is validated.
  unfoldable pub emulate :
      AuthRequest → String → ApiKeyView Value → Action (State Limiter) (Option BeforeRequestAction)
  emulate req raw_key view = do
    found ← on_database (get_user_by_id view.user_id)
    elim found [
      | none ↦ raise (api_key_error ApiKeyErrorCode.invalid_user_id_from_api_key)
      | some user ↦
          if req.path == "/get-session"
          then pure (
              some (
                respond
                  (record { user = user; id = view.id; token = raw_key; user_id = view.user_id })))
          else pure (some (inject_session view.user_id raw_key))
    ]

  unfoldable pub before_request :
      AuthRequest → Readings → Action (State Limiter) (Option BeforeRequestAction)
  before_request req t s =
      if not config.enable_session_for_api_keys
      then (ok none, s)
      else elim (get config.api_key_header req.headers) [
        | none ↦ (ok none, s)
        | some raw_key ↦
            if (raw_key == "") || starts_with req.path "/api-key/"
            then (ok none, s)
            else (let (r, s') = validate_api_key lib config raw_key none t s in
                elim r [
                  | invalid e ↦ (err (bad_request e.message), s')
                  | valid view ↦ emulate req raw_key view s'
                ])
      ]
