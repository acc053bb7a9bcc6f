-- ===== src/Runs.antt =====
-- Reading and sharing runs (modules/run.go, controller/run.go, controller/test.go).
pub mod Queries
pub mod Decoding
pub mod Handlers
pub mod Granted
pub mod Answered
pub mod Entries
pub mod Reading
pub mod Sharing
pub mod Given
pub mod Remains
pub mod Effects
