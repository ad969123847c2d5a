-- ===== src/Lib.antt =====
-- A verification library for better-auth-rs-worker, an authentication framework: users, sessions,
-- organizations, passkeys and an OpenID Connect provider behind an HTTP interface.
--
-- The program's parts and the files that model them:
--   * crates/core/src/adapters/memory.rs, the in-memory store: Memory.antt has its state, one map for
--     each table and each secondary index, and Memory/*Ops.antt have the operations, one function for
--     each method. A method holds its locks from start to end, so it is one step on the state. The
--     files below Memory/*Ops/ have the proofs. HashMap.antt models the standard library's map as an
--     association list, so the order of iteration is that of any list.
--   * crates/core/src/types.rs, types_org.rs and adapters/memory_traits.rs: Entity/*.antt, the stored
--     records with `from_create` and `apply_update`.
--   * crates/core/src/error.rs: Error.antt.
--   * crates/core/src/session.rs: Session.antt, the session manager, over the interface
--     `SessionStore` of adapters/traits.rs. Session/Laws.antt states what the manager relies on, and
--     Session/InMemory.antt proves it of the in-memory store. Session/Request.antt has the session of a
--     request, with `require_session` of plugin.rs.
--   * crates/core/src/middleware/rate_limit.rs: Middleware/RateLimit.antt, with a specification that
--     keeps the whole history in Middleware/RateLimit/Refinement.antt.
--   * crates/core/src/middleware/cors.rs: Middleware/Cors.antt.
--   * crates/core/src/oidc/model.rs and crates/api/src/plugins/oidc_provider/: Oidc/*.antt. Model,
--     OAuthError, Requests, Rules, Decide and Claims follow the files of those names; FormRequest and
--     TokenEndpoint model the token endpoint of handlers.rs, from the request to the stored token,
--     UserInfo the userinfo endpoint, and AuthorizeRequest and Authorize the authorization endpoint.
--     CodeFlow.antt composes the authorization with the redemption.
--   * crates/api/src/plugins/organization/: Organization/*.antt, on the in-memory store. Rbac and
--     Requests follow rbac.rs and types.rs; Members and Handlers have handlers/member.rs and the reads
--     and memberships of handlers/org.rs, Administration the rest of org.rs and the permission test
--     of handlers/mod.rs, and Invitations handlers/invitation.rs.
--   * crates/api/src/plugins/api_key/ and its part of plugins/helpers.rs: ApiKey.antt and ApiKey/*.antt.
--     Requests, Checks and Permissions have the request types, the tests of a new key and the
--     permissions; Validate has `validate_api_key` from the limiter to the write, Handlers the
--     handlers behind the routes, and Emulation the hook before a request. The state is the store
--     beside the plugin's limiters and the time of its last cleanup.
--   * crates/api/src/plugins/device_authorization.rs: DeviceAuthorization.antt, the codes of a device,
--     their approval and denial, and the poll.
--   * Http.antt has the requests and responses that these share, and Action.antt the type of an
--     operation that changes a store and may fail: what was written before an error stays written.
--     Action/Keeps.antt has the rule by which a chain of such operations keeps a predicate.
--   * Examples/*.antt run the theorems on concrete data.
--
-- Conventions. An instant and a duration are numbers of nanoseconds; the clock's readings and the
-- identifiers that the runtime draws are arguments, an error of the generator included. A machine
-- integer that can wrap has its `% 2 ^ w` written out. All loops are structural recursion, so there
-- is no fuel. An `i64` that the code only compares, takes one off or prints is an integer. JSON values
-- are texts, and value objects are the texts that their parsers accepted.
--
-- Parameters. Hashing, base64, form decoding and encoding, the URL parser, `str::trim`,
-- `split_whitespace` and the split of a list of roles, the cookie parser, the signer of id tokens, the
-- host's login hook, the source of entropy, the lower-casing of texts, the printer of numbers, RFC 3339
-- dates, the JSON views of records and of permissions, the `governor` limiter of a key, and the codes
-- that are drawn are arguments of what calls them.
--
-- Not modelled: the SQL and D1 adapters, whose work is SQL text; derive macros; the HTTP framework
-- glue, configuration builders and OpenAPI output; the remaining plugins and middleware.
pub mod Prelude
pub mod Error
pub mod HashMap
pub mod Action
pub mod Entity
pub mod Oidc
pub mod Memory
pub mod Session
pub mod Organization
pub mod ApiKey
pub mod DeviceAuthorization
pub mod Http
pub mod Middleware
pub mod Examples
