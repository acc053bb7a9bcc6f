-- ===== src/Sse/Stream.antt =====
-- What the handler of modules/sse/server.go reads and writes. Redis, the client's connection, the
-- request's context and the JSON decoder are the environment, which answers by the number of the
-- call, so that it may behave differently each time. Logging and sleeping leave no trace.
use runner_controller_micros.Base.{ℕ, String, ◌<>◌, Bool, Option, List, []}
use runner_controller_micros.Base.Decimal.{fmt_d}
use runner_controller_micros.Base.Int.{pos}

abbrev pub retry_seconds : ℕ
retry_seconds = 3

abbrev pub stream_read_count : ℕ
stream_read_count = 100

abbrev pub done_event : String
done_event = "done"

-- An entry of a Redis stream; `log_data` is the value of that field, if it is there and a string.
pub record Message : Type 0 where
  pub id : String
  pub log_data : Option String

-- `blockTimeout`, in milliseconds
abbrev pub block_timeout : ℕ
block_timeout = 5000

-- The stream, the entry after which to read, and for how many milliseconds to wait for entries. A
-- field `Block` of zero is sent as `BLOCK 0`, which waits without limit.
pub record Read : Type 0 where
  pub stream : String
  pub cursor : String
  pub block : ℕ

-- The result of `XRead`: the entries, by stream, or one of the errors that the code tells apart:
-- `redis.Nil`, a text with NOGROUP, a cancelled context, any other. `pending` is a read that does not
-- return.
pub data Answer : Type 0 where
  results : List (List Message) → Answer
  nil_reply : Answer
  no_group : Answer
  canceled : Answer
  failed : Answer
  pending : Answer

pub record Env : Type 0 where
  pub xread : ℕ → Read → Answer  -- by the number of reads before
  pub write_fails : ℕ → Bool  -- by the number of writes and flushes before
  pub context_done : ℕ → Bool  -- before the read of this number
  pub is_eof : String → Bool  -- whether a payload is the end of the log, as in Payload

pub data Phase : Type 0 where
  history live : Phase

-- What the client is sent.
pub data Frame : Type 0 where
  error_reply : ℕ → String → Frame
  retry : ℕ → Frame
  payload : String → Frame
  done : String → Frame

-- The text of a frame; that of `http.Error` is its message.
pub render : Frame → String
render (error_reply code message) = message
render (retry n) = "retry: " <> (fmt_d (pos n) <> "s\n\n")
render (payload p) = "data: " <> (p <> "\n\n")
render (done message) = "event: " <> (done_event <> ("\ndata: " <> (message <> "\n\n")))

-- A request as it goes on: how often it has read and written, the last entry processed, and the
-- frames written so far, first to last.
pub record Conn : Type 0 where
  pub reads : ℕ
  pub writes : ℕ
  pub cursor : String
  pub processed : ℕ
  pub out : List Frame

abbrev pub start : Conn
start = record { reads = 0; writes = 0; cursor = "0-0"; processed = 0; out = [] }

-- Whether a loop has returned from the handler, has ended and lets it go on, waits in a read that does
-- not return, or has used up the number of rounds that it was given.
pub data Status : Type 0 where
  closed caught_up waiting unfinished : Status
