-- ===== src/Lib.antt =====
-- The runner controller takes requests over HTTP to run optimisation algorithms. For each it
-- writes a Python program, keeps it in an object store, and puts a message on a queue, from which
-- a runner takes it; while the program runs, a client reads its log as a stream of server-sent
-- events.
--
-- Parts and files:
--
-- Base: the types and lemmas that all share. Base.Text has the functions of Go's `strings` and
-- `slices`, Base.Decimal the verb %d, Base.Int Go's int, Base.Outcome a result that may be a
-- panic. Base.Floats takes float64 as a parameter: its comparison, conversion and printing, with
-- what the program relies on as the record IsLawful.
--
-- Json: encoding/json as the functions of modules/ use it that end in FromJSON. Value has the
-- values, Keys the order of the keys and the search for a field, Reader the types of values,
-- Struct a struct. The payload of an entry of the log is decoded in the same way. Reads, Order,
-- Keeps and Errors are about what is decoded. The generators and Runs have a module Decoding with
-- their structs, and Encoding writes a request as an object.
--
-- Python: what the generators share: the names of the benchmarks and of the algorithms
-- (util/validate.go), and the tuple of fitness weights.
--
-- Ea: the generator for evolutionary algorithms and differential evolution, modules/ea.go. Config
-- is the struct EA and `validate`, Templates and Parts hold one function per method that writes a
-- part of the program, Program is `Code`. A method that writes to its receiver returns the new
-- record. Result says of which parts a program is made; Accept, Names and Contents say which
-- requests are accepted and what the program contains.
--
-- Pso: the generator for particle swarms, modules/pso.go, in the same way.
--
-- Gp: the generator for genetic programming, modules/gp.go, in the same way. Go's loop over a map
-- takes the entries in any order; the order is a parameter of `code`.
--
-- Ml: the generator for machine learning, modules/ml.go, in the same way.
--
-- Sse: the handler of modules/sse/server.go. Stream has the environment: what Redis, the client's
-- connection and the request's context answer at each call, as functions of the number of the
-- call; Payload has the payload of an entry, over what the texts are as JSON. Handler follows
-- `serveSSEWithStream` and `sendSSEData`. Batch, Held and Replay are about one batch, about a
-- stream that holds still and about the loop over the history, Complete about a run that is over,
-- Spin about entries without a payload, Frames and Order about what a client is sent in any case;
-- Log, Growing and Following about a log that a run goes on writing while it is read.
--
-- Service: the handlers that create a run, controller/ea.go, controller/pso.go, controller/gp.go
-- and controller/ml.go, with the functions that they call: `Auth` of modules/auth.go, `Body` of
-- util/request.go, `PoolConn` of db/connection/pool.go, `UploadFile` of util/minio.go and
-- `EnqueueRunRequest` of util/enqueue.go (Calls; Ends and Queue are about the last one). World
-- has the environment, in which the answer to a call may depend on all that happened before, and
-- the calls themselves; Exec is an action that goes on, stops with an error or a response, or
-- panics, and keeps a trace. Create is the handler, over what the algorithm contributes, which
-- Kinds has. Replies has the responses. Requests is the handler with the FromJSON function of its
-- algorithm in front, Mismatch a request with a value that does not fit its field, Panics whether
-- a handler panics. Backing and Kept are about what stands behind a message on the queue, Plan
-- and Planned about the part of its work that a handler has done when it ends. Effects reads off
-- a trace what the other programs hold after it, and which calls have changed something. Stages
-- and Progress say what each part has done when it goes on, Stops and Failures what it has done
-- when it stops; Answers, Created and Algorithms put this together.
--
-- Runs: the handlers of controller/run.go and controller/test.go, with modules/run.go. Queries
-- has `UserRuns`, `UserRun` and `ShareRun`, over queries that the environment answers row by row,
-- Handlers the handlers. Granted and Answered have the rules for what an action adds to the
-- accesses and for the status of a response; Entries and Reading say who may read a run and what
-- is read, Sharing what a sharing does, Given and Remains what is left of one that stops, Effects
-- is about the effects of these handlers.
--
-- Logger: util/logger.go. Client has the address of the client that `enrich` and `LogMiddleware`
-- find, Levels the entries that the methods of `LoggerService` write, Middleware the response
-- writer that records the status, and `LogMiddleware`, where a handler is a tree of the calls
-- that it makes of its writer, by what it is answered: the wrapper has no Flush, so a flush
-- fails. Texts, Statuses, Address and Recorded have the theorems. Of the other parts only Server
-- takes the logger in.
--
-- Server: main.go, routes/api.go, util/redis.go, with GetRedisClient and GetSSEHandler of
-- modules/sse/server.go. Settings has the variables of the environment, Routes the routes and the
-- part of http.ServeMux that they need, Redis the connections, Process `main` as what it does and
-- how it ends; Dispatch has the requests that the process serves in turn, over the handlers of
-- Service and Runs. Endpoints, Lifecycle and Backed are about these.
--
-- Tests: a concrete environment, and every theorem at a concrete request.
--
-- Fuel: the two loops of modules/sse/server.go take the number of rounds that they may make, and
-- report when it is used up. One more round than the log has entries is enough for a log that
-- holds the end; the loop over live entries has no bound of its own, it goes on until the end of
-- the log, an error, or the end of the request. A read of the first loop asks Redis with `BLOCK
-- 0`, since its field Block is zero; a read that does not return is an answer of its own, and the
-- handler then waits.
--
-- Not modelled: the text of JSON: the body of a request is a decoded map, which the FromJSON
-- functions marshal and unmarshal again as it is, except that the keys are sorted; a null element
-- of a second array for the same field is read over the elements of the array before, not over
-- those that a still earlier one had. The text that is stored and queued is a parameter. Log
-- lines and pauses have no effect on the model. main.go, modules/sse/server.go, util/enqueue.go
-- and util/redis.go do not compile: amqp, os and a type Logger are missing, calls have too few
-- arguments or too many, and main.go and util/enqueue.go declare a variable twice; the second
-- declaration is read as an assignment. The library of RabbitMQ is taken to return nil beside an
-- error. The time limits of the HTTP server and the headers of CORS belong to libraries; proto/
-- is generated.
pub mod Base
pub mod Json
pub mod Python
pub mod Ea
pub mod Pso
pub mod Gp
pub mod Ml
pub mod Sse
pub mod Service
pub mod Runs
pub mod Logger
pub mod Server
mod Tests
