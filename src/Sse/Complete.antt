-- ===== src/Sse/Complete.antt =====
-- A request for the logs of a run that is over (modules/sse/server.go).
use runner_controller_micros.Base.{
  ℕ, ◌<◌, ◌≡◌, refl, ◌≢◌, String, true, false, List, [], ◌∷◌, ◌++◌, map, All, length,
}
use runner_controller_micros.Base.Text.{contains_any}
use runner_controller_micros.Base.Text.Laws.{ne-eq}
use runner_controller_micros.Sse.Stream.{
  Message, Env, history, Frame, retry, payload, done, Conn, start, Status, closed, caught_up,
  waiting, unfinished, retry_seconds,
}
use runner_controller_micros.Sse.Handler.{
  done_message, write, flush, read_history, go_live, open_stream, run_id, serve, deliver, counted,
}
use runner_controller_micros.Sse.Batch.{expected, ends}
use runner_controller_micros.Sse.Held.{Holds, HasPayload}
use runner_controller_micros.Sse.Replay.{read_history-Replays}

closed_stays :
    (env : Env) (stream : String) (fuel : ℕ) (r : Status × Conn)
    → r.0 ≡ closed
    → go_live env stream fuel r ≡ r
unfolding go_live
closed_stays env stream fuel (closed, c) h = refl
closed_stays env stream fuel (caught_up, c) h = cc
closed_stays env stream fuel (waiting, c) h = refl
closed_stays env stream fuel (unfinished, c) h = refl

module _ (env : Env) (log : List Message) (fuel : ℕ) (calm : (n : ℕ) → env.write_fails n ≡ false)
    (ended : ends env.is_eof log ≡ true) (enough : length log < fuel)
    (all : All HasPayload log) where
  -- All that the client is sent.
  abbrev whole_run : List Frame
  whole_run =
      retry retry_seconds
      ∷ (map payload (expected env.is_eof log) ++ (done (done_message history) ∷ []))

  open_stream_lem :
      (stream : String)
      → Holds env stream log
      → ((open_stream env stream fuel start).0 ≡ closed)
        × ((open_stream env stream fuel start).1.out ≡ whole_run)
  unfolding open_stream write flush
  open_stream_lem stream holds =
      let c = counted (deliver (retry retry_seconds) (counted start)) in
      let (status, out) =
        read_history-Replays env stream log calm holds fuel [] log c refl refl all enough in
      let stop = rw ended at status in
      rw (calm 0, open_stream)
        (rw (calm 1) (
          rw (closed_stays env stream fuel (read_history env stream fuel c) stop)
            (stop, rw ended at out)))

  -- For a run whose log stays as it is and holds the end: if every entry has a payload, no write
  -- fails, the run id is accepted and there are more rounds than entries, the handler returns, and
  -- the client has been sent the retry line, every payload once and in order up to the end, and
  -- then the done event, and nothing else.
  pub serve_complete :
      (query header : String)
      → run_id query header ≢ ""
      → contains_any (run_id query header) "\n\r*?" ≡ false
      → Holds env (run_id query header) log
      → ((serve env fuel query header).0 ≡ closed)
        × ((serve env fuel query header).1.out
            ≡ retry retry_seconds
              ∷ (map payload (expected env.is_eof log) ++ (done (done_message history) ∷ [])))
  unfolding serve
  serve_complete query header given clean holds =
      rw (ne-eq given, serve) (rw clean (open_stream_lem (run_id query header) holds))
