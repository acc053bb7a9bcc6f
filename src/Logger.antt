-- ===== src/Logger.antt =====
-- The logger, util/logger.go. Client has the address that an entry names, Levels the entries that the
-- methods write, Middleware the response writer that records the status, with `LogMiddleware`.
-- Address and Recorded are about the address and about what is recorded.
pub mod Client
pub mod Levels
pub mod Middleware
pub mod Texts
pub mod Address
pub mod Statuses
pub mod Recorded
