-- ===== src/Server.antt =====
-- The server as main.go sets it up and takes it down, with routes/api.go, util/redis.go and the two
-- functions of modules/sse/server.go that it calls. main.go declares `err` twice in one scope and
-- calls GetSSEHandler with one argument, and util/redis.go names a type that is not there: the second
-- `err :=` is read as an assignment, and the logger and the client are those that main.go made.
pub mod Settings
pub mod Routes
pub mod Redis
pub mod Process
pub mod Endpoints
pub mod Lifecycle
pub mod Dispatch
pub mod Backed
