-- ===== src/Sse.antt =====
-- The stream of a run's logs to a browser (modules/sse/server.go).
pub mod Stream
pub mod Payload
pub mod Handler
pub mod Batch
pub mod Held
pub mod Replay
pub mod Complete
pub mod Spin
pub mod Log
pub mod Growing
pub mod Following
pub mod Frames
pub mod Order
