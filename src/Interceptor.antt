-- ===== src/Interceptor.antt =====
-- The authentication interceptor, internal/hades/server/authorization/middleware.go.
pub mod Procedures
pub mod Stores
pub mod Sessions
pub mod Tokens
pub mod Live
pub mod Resolution
pub mod Routing
pub mod Admission
pub mod Confined
pub mod Service
mod Tests
