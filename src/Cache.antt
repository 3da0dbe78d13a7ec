-- ===== src/Cache.antt =====
-- internal/hades/cache: the in-process implementation of the cache interface.
pub mod Search
pub mod Memory
