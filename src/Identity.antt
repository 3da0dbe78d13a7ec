-- ===== src/Identity.antt =====
-- Users and organisations: the tables org_memberships and opa_role_bindings, and the handlers of
-- internal/hades/server/identity/handler.go.
pub mod Tables
pub mod Orgs
pub mod Profiles
pub mod Permission
pub mod Admins
pub mod Atomic
pub mod Creation
pub mod Redaction
mod Tests
