-- ===== src/Authz.antt =====
-- Authorisation: the Rego policy, the engine that evaluates it, and the server's checks.
pub mod Policy
pub mod Engine
pub mod Scopes
pub mod Server
pub mod Bindings
