-- ===== src/Auth.antt =====
-- internal/hades/server/auth: accounts, passwords, sessions, API tokens and device grants. Writes
-- to the audit log and mails, whose errors the handlers drop, are not modelled; a handler reads
-- the clock once here.
pub mod Tables
pub mod Login
pub mod Passwords
pub mod Sessions
pub mod Lockout
pub mod Recovery
pub mod Access
pub mod Devices
pub mod Grants
pub mod Polls
pub mod SingleToken
pub mod ApiTokens
pub mod TokenIssue
mod Tests
mod DeviceTests
mod TokenTests
