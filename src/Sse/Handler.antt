-- ===== src/Sse/Handler.antt =====
-- The handler of modules/sse/server.go: a function for each loop and for the sending of a payload.
-- The loops take the number of rounds that they may make.
use runner_controller_micros.Base.{
  ℕ, zero, suc, ◌+◌, String, ◌==◌, Bool, true, false, Option, none, some, List, [], ◌∷◌, ◌++◌, ltb,
  length, if◌then◌else◌,
}
use runner_controller_micros.Base.Text.{contains_any}
use runner_controller_micros.Sse.Stream.{
  Message, Answer, results, nil_reply, no_group, canceled, failed, Env, Phase, history, live, Frame,
  error_reply, retry, payload, done, Conn, start, Status, closed, caught_up, waiting, unfinished,
  block_timeout, pending, stream_read_count, retry_seconds,
}

abbrev pub deliver : Frame → Conn → Conn
deliver f c = record c { out = c.out ++ (f ∷ []) }

abbrev pub counted : Conn → Conn
counted c = record c { writes = c.writes + 1 }

-- The message of the done event tells where the end was found.
abbrev pub done_message : Phase → String
done_message history = "{\"message\": \"Stream ended (found in history).\"}"
done_message live = "{\"message\": \"Stream ended.\"}"

-- `historyProcessed++`, which only the first loop does
abbrev pub tally : Phase → Conn → Conn
tally history c = record c { processed = c.processed + 1 }
tally live c = c

-- `len(results) == 0 || len(results[0].Messages) == 0` leaves no entries.
abbrev pub first_messages : List (List Message) → List Message
first_messages [] = []
first_messages (ms ∷ _) = ms

module _ (env : Env) where
  -- A write of a frame, and a flush: whether it succeeded.
  unfoldable pub write : Frame → Conn → Bool × Conn
  write f c = if env.write_fails c.writes then (false, counted c) else (true, deliver f (counted c))

  unfoldable pub flush : Conn → Bool × Conn
  flush c = if env.write_fails c.writes then (false, counted c) else (true, counted c)

  -- A flush after a write that succeeded.
  unfoldable pub then_flush : Bool × Conn → Bool × Conn
  then_flush (true, c) = flush c
  then_flush (false, c) = (false, c)

  -- `sendSSEData`
  unfoldable pub send : String → Conn → Bool × Conn
  unfolding then_flush
  send p c = then_flush (write (payload p) c)

  -- The end of the stream was found: both results are ignored.
  unfoldable pub finish : Phase → Conn → Conn
  finish phase c = (flush (write (done (done_message phase)) c).1).1

  -- What is done with an entry, where `go` is the rest of the loop: its payload is sent, and the
  -- loop stops if that fails or if the payload is the end. An entry without one is passed over.
  unfoldable pub after_eof : (Conn → Bool × Conn) → Phase → String → Bool → Conn → Bool × Conn
  after_eof go phase id true c = (false, finish phase c)
  after_eof go phase id false c = go (record c { cursor = id })

  unfoldable pub after_send :
      (Conn → Bool × Conn) → Phase → String → String → Bool × Conn → Bool × Conn
  unfolding after_eof
  after_send go phase id p (false, c) = (false, c)
  after_send go phase id p (true, c) = after_eof go phase id (env.is_eof p) (tally phase c)

  unfoldable pub on_entry :
      (Conn → Bool × Conn) → Phase → String → Option String → Conn → Bool × Conn
  unfolding after_send
  on_entry go phase id none c = go c
  on_entry go phase id (some p) c = after_send go phase id p (send p c)

  -- The loop over the entries of a batch, and whether the handler goes on after it.
  unfoldable pub process : Phase → List Message → Conn → Bool × Conn
  unfolding on_entry
  process phase [] c = (true, c)
  process phase (msg ∷ rest) c = on_entry (process phase rest) phase msg.id msg.log_data c

  -- The loops, where `go` is the next round.
  module _ (go : Conn → Status × Conn) where
    unfoldable pub after_history : ℕ → Bool × Conn → Status × Conn
    after_history n (false, c) = (closed, c)
    after_history n (true, c) = elim (ltb n stream_read_count) [
      | true ↦ (caught_up, c)
      | false ↦ go c
    ]

    unfoldable pub on_batch : List Message → Conn → Status × Conn
    unfolding after_history process
    on_batch [] c = (caught_up, c)
    on_batch (m ∷ ms) c = after_history (length (m ∷ ms)) (process history (m ∷ ms) c)

    unfoldable pub on_history : Answer → Conn → Status × Conn
    unfolding on_batch
    on_history nil_reply c = (caught_up, c)
    on_history no_group c = (caught_up, c)
    on_history canceled c = (closed, c)
    on_history failed c = (closed, c)
    on_history pending c = (waiting, c)
    on_history (results rs) c = on_batch (first_messages rs) c

    unfoldable pub after_live : Bool × Conn → Status × Conn
    after_live (false, c) = (closed, c)
    after_live (true, c) = go c

    -- An error other than a cancelled context is retried.
    unfoldable pub on_live : Answer → Conn → Status × Conn
    unfolding after_live process
    on_live nil_reply c = go c
    on_live no_group c = go c
    on_live canceled c = (closed, c)
    on_live failed c = go c
    on_live pending c = (waiting, c)
    on_live (results rs) c = after_live (process live (first_messages rs) c)

  module _ (stream : String) where
    abbrev pub ask : ℕ → Conn → Answer
    ask block c = env.xread c.reads (record { stream = stream; cursor = c.cursor; block = block })

    abbrev pub asked : Conn → Conn
    asked c = record c { reads = c.reads + 1 }

    -- The loop over what the stream holds already. Its reads leave `Block` at zero.
    unfoldable pub read_history : ℕ → Conn → Status × Conn
    unfolding on_history
    read_history zero c = (unfinished, c)
    read_history (suc fuel) c = on_history (read_history fuel) (ask 0 c) (asked c)

    -- The loop that waits for new entries, until the context is done.
    unfoldable pub read_live : ℕ → Conn → Status × Conn
    unfolding on_live
    read_live zero c = (unfinished, c)
    read_live (suc fuel) c = elim (env.context_done c.reads) [
      | true ↦ (closed, c)
      | false ↦ on_live (read_live fuel) (ask block_timeout c) (asked c)
    ]

    unfoldable pub go_live : ℕ → Status × Conn → Status × Conn
    unfolding read_live
    go_live fuel (caught_up, c) = read_live fuel c
    go_live fuel (status, c) = (status, c)

    unfoldable pub after_headers : ℕ → Bool × Conn → Status × Conn
    after_headers fuel (true, c) = go_live fuel (read_history fuel c)
    after_headers fuel (false, c) = (closed, c)

    -- From the SSE headers on: the retry line, its flush, and the two loops.
    unfoldable pub open_stream : ℕ → Conn → Status × Conn
    unfolding then_flush after_headers
    open_stream fuel c = after_headers fuel (then_flush (write (retry retry_seconds) c))

-- The query parameter, or the header if it is empty.
unfoldable pub run_id : String → String → String
run_id query header = if query == "" then header else query

-- `serveSSEWithStream`, for the query parameter and the header.
unfoldable pub serve : Env → ℕ → String → String → Status × Conn
unfolding run_id open_stream
serve env fuel query header =
    let id = run_id query header in
    if id == ""
    then (
      closed,
      deliver (error_reply 400 "Missing runId query parameter or X-RUN-ID header") start,
    )
    else if contains_any id "\n\r*?"
    then (closed, deliver (error_reply 400 "Invalid Run ID format") start)
    else open_stream env id fuel start
