-- ===== src/Memory/OidcOps.antt =====
-- crates/core/src/adapters/memory.rs, the OIDC provider store: clients, authorization codes and
-- access tokens.
pub mod Codes
use better_auth_rs_worker.Prelude.{ℕ, ◌-◌, String, Option, none, some, if◌then◌else◌, ltb}
use better_auth_rs_worker.Error.{AuthResult, ok}
use better_auth_rs_worker.Action.{Action}
use better_auth_rs_worker.HashMap.{get, insert, remove, retain, len}
use better_auth_rs_worker.Entity.{Instant}
use better_auth_rs_worker.Oidc.Model.{
  OAuthClient, NewAuthorizationCode, AuthorizationCodeRecord, NewAccessToken, AccessTokenRecord,
}
use better_auth_rs_worker.Memory.{MemoryDatabaseAdapter}

unfoldable pub get_client : String → Action MemoryDatabaseAdapter (Option OAuthClient)
get_client id db = (ok (get id db.oidc_clients), db)

unfoldable pub seed_oauth_client : OAuthClient → MemoryDatabaseAdapter → MemoryDatabaseAdapter
seed_oauth_client client db = record db {
  oidc_clients = insert client.client_id client db.oidc_clients;
}

abbrev pub code_record : NewAuthorizationCode → AuthorizationCodeRecord
code_record input = record {
  code = input.code;
  client_id = input.client_id;
  subject = input.subject;
  redirect_uri = input.redirect_uri;
  scope = input.scope;
  code_challenge = input.code_challenge;
  code_challenge_method = input.code_challenge_method;
  nonce = input.nonce;
  auth_time = input.auth_time;
  expires_at = input.expires_at;
}

unfoldable pub create_authorization_code : NewAuthorizationCode → Action MemoryDatabaseAdapter Unit
create_authorization_code input db =
    (ok tt, record db { oidc_codes = insert input.code (code_record input) db.oidc_codes })

unfoldable pub consume_authorization_code :
    String → Instant → Action MemoryDatabaseAdapter (Option AuthorizationCodeRecord)
consume_authorization_code code now db = elim (get code db.oidc_codes) [
  | none ↦ (ok none, db)
  | some r ↦
      if ltb now r.expires_at
      then (ok (some r), record db { oidc_codes = remove code db.oidc_codes })
      else (ok none, db)
]

unfoldable pub delete_expired_authorization_codes : Instant → Action MemoryDatabaseAdapter ℕ
delete_expired_authorization_codes now db =
    let kept = retain (λ r. ltb now r.expires_at) db.oidc_codes in
    (ok (len db.oidc_codes - len kept), record db { oidc_codes = kept })

abbrev token_record : NewAccessToken → AccessTokenRecord
token_record input = record {
  token_hash = input.token_hash;
  client_id = input.client_id;
  subject = input.subject;
  scope = input.scope;
  expires_at = input.expires_at;
  created_at = input.created_at;
}

unfoldable pub create_access_token : NewAccessToken → Action MemoryDatabaseAdapter Unit
create_access_token input db = (
  ok tt,
  record db {
    oidc_access_tokens = insert input.token_hash (token_record input) db.oidc_access_tokens;
  },
)

unfoldable pub get_access_token_by_hash :
    String → Action MemoryDatabaseAdapter (Option AccessTokenRecord)
get_access_token_by_hash hash db = (ok (get hash db.oidc_access_tokens), db)

unfoldable pub delete_expired_access_tokens : Instant → Action MemoryDatabaseAdapter ℕ
delete_expired_access_tokens now db =
    let kept = retain (λ r. ltb now r.expires_at) db.oidc_access_tokens in
    (ok (len db.oidc_access_tokens - len kept), record db { oidc_access_tokens = kept })
