-- ===== src/GoProxy.antt =====
-- The Go module proxy, internal/goproxy/handler.go.
pub mod Escaping
pub mod Handler
pub mod Spelling
pub mod Gate
mod Tests
