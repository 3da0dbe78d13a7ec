-- ===== src/Upload.antt =====
-- internal/hades/server/content/upload.go: `Upload`, and the statements that it makes.
pub mod Limits
pub mod Registry
pub mod Checks
pub mod Request
pub mod Prepare
pub mod Notify
pub mod Told
pub mod Write
pub mod Landing
pub mod Accounts
pub mod Plans
pub mod Rounds
pub mod Pushes
mod Tests
