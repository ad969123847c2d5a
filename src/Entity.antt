-- ===== src/Entity.antt =====
-- crates/core/src/types.rs, types_org.rs and adapters/memory_traits.rs: the stored entities, how
-- the in-memory adapter builds them and how it updates them.
-- An instant is the number of nanoseconds since the epoch, a duration a number of nanoseconds. A
-- JSON value is carried by its text: the adapter only copies it.
pub mod Base
pub mod Users
pub mod Sessions
pub mod Accounts
pub mod Verifications
pub mod Organizations
pub mod Members
pub mod Invitations
pub mod TwoFactors
pub mod Passkeys
pub mod ApiKeys
pub use Base.*
pub use Users.{User, CreateUser, UpdateUser}
pub use Sessions.{Session, CreateSession}
pub use Accounts.{Account, CreateAccount, UpdateAccount}
pub use Verifications.{Verification, CreateVerification}
pub use Organizations.{Organization, CreateOrganization, UpdateOrganization}
pub use Members.{Member, CreateMember}
pub use Invitations.{
  Invitation, InvitationStatus, pending, accepted, rejected, canceled, CreateInvitation,
}
pub use TwoFactors.{TwoFactor, CreateTwoFactor}
pub use Passkeys.{Passkey, CreatePasskey}
pub use ApiKeys.{ApiKey, CreateApiKey, UpdateApiKey}
