-- ===== src/Jobs.antt =====
-- The queue of SDK generation jobs and the worker that empties it.
pub mod Table
pub mod Attempts
pub mod Claims
pub mod Worker
mod Tests
pub mod Slots
pub mod Outcome
pub mod Endings
