-- ===== src/Service.antt =====
-- The service around the generators: authentication (modules/auth.go), request and response
-- (util/request.go, util/response.go), the pool (db/connection/pool.go), the object store
-- (util/minio.go), the queue (util/enqueue.go) and the handlers that create a run (controller/ea.go,
-- controller/pso.go, controller/gp.go, controller/ml.go).
pub mod World
pub mod Exec
pub mod Calls
pub mod Replies
pub mod Create
pub mod Kinds
pub mod Effects
pub mod Stages
pub mod Progress
pub mod Stops
pub mod Failures
pub mod Ends
pub mod Queue
pub mod Plan
pub mod Planned
pub mod Backing
pub mod Kept
pub mod Panics
pub mod Requests
pub mod Mismatch
pub mod Answers
pub mod Created
pub mod Algorithms
