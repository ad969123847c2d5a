-- ===== src/Examples.antt =====
-- Concrete runs of the modelled operations.
mod Users
mod Tables
mod ApiKeys
mod Sessions
mod Limits
mod Origins
mod Tokens
mod Members
mod Devices
mod CodeFlow
mod Invitations
mod UserInfo
