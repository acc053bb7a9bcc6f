-- ===== src/Sse/Order.antt =====
-- What holds of every request of modules/sse/server.go, however Redis and the client behave.
use mathlib.Core.Bool.{false≢true}
use runner_controller_micros.Base.{
  ◌∙◌, ℕ, zero, suc, ◌<◌, ◌≡◌, refl, ◌≢◌, sym, inl, inr, String, ◌==◌, Bool, true, false, List, [],
  ◌∷◌, arith, Bool-cases, ltb, length, eq_iff,
}
use runner_controller_micros.Base.Text.{contains_any}
use runner_controller_micros.Sse.Stream.{
  Message, Answer, results, nil_reply, no_group, canceled, failed, Env, history, live, retry, Conn,
  start, Status, closed, caught_up, waiting, unfinished, pending, retry_seconds,
}
use runner_controller_micros.Sse.Handler.{
  then_flush, after_headers, first_messages, write, process, after_history, on_batch, on_history,
  after_live, on_live, read_history, read_live, go_live, open_stream, run_id, serve, asked, ask,
}
use runner_controller_micros.Sse.Frames.{
  Open, DoneLast, Keeps, write-Open, then_flush-Open, process-Keeps,
}

abbrev Ends : Status × Conn → Type 0
Ends (caught_up, c) = Open c.out
Ends (_, c) = DoneLast c.out

module _ (env : Env) where
  abbrev EndsOpen : (Conn → Status × Conn) → Type 0
  EndsOpen go = (c : Conn) → Open c.out → Ends (go c)

  module _ (go : Conn → Status × Conn) (next : EndsOpen go) where
    after_history-Ends : (n : ℕ) (r : Bool × Conn) → Keeps r → Ends (after_history env go n r)
    unfolding after_history
    after_history-Ends n (false, c) k = k
    after_history-Ends n (true, c) k = elim (Bool-cases (ltb n 100)) [
      | inl e ↦ rw (e, after_history) k
      | inr e ↦ rw (e, after_history) (next c k)
    ]

    on_batch-Ends : (ms : List Message) → EndsOpen (on_batch env go ms)
    unfolding on_batch
    on_batch-Ends [] c o = o
    on_batch-Ends (m ∷ ms) c o =
        after_history-Ends (length (m ∷ ms)) (process env history (m ∷ ms) c)
          (process-Keeps env history (m ∷ ms) c o)

    on_history-Ends : (a : Answer) → EndsOpen (on_history env go a)
    unfolding on_history
    on_history-Ends nil_reply c o = o
    on_history-Ends no_group c o = o
    on_history-Ends canceled c o = inl o
    on_history-Ends failed c o = inl o
    on_history-Ends pending c o = inl o
    on_history-Ends (results rs) c o = on_batch-Ends (first_messages rs) c o

    after_live-Ends : (r : Bool × Conn) → Keeps r → Ends (after_live env go r)
    unfolding after_live
    after_live-Ends (false, c) k = k
    after_live-Ends (true, c) k = next c k

    on_live-Ends : (a : Answer) → EndsOpen (on_live env go a)
    unfolding on_live
    on_live-Ends nil_reply c o = next c o
    on_live-Ends no_group c o = next c o
    on_live-Ends canceled c o = inl o
    on_live-Ends failed c o = next c o
    on_live-Ends pending c o = inl o
    on_live-Ends (results rs) c o =
        after_live-Ends (process env live (first_messages rs) c)
          (process-Keeps env live (first_messages rs) c o)

  module _ (stream : String) where
    read_history-Ends : (fuel : ℕ) → EndsOpen (read_history env stream fuel)
    unfolding read_history
    read_history-Ends zero c o = inl o
    read_history-Ends (suc f) c o =
        on_history-Ends (read_history env stream f) (read_history-Ends f) (ask env stream 0 c)
          (asked env stream c) o

    read_live-Ends : (fuel : ℕ) → EndsOpen (read_live env stream fuel)
    unfolding read_live
    read_live-Ends zero c o = inl o
    read_live-Ends (suc f) c o = elim (Bool-cases (env.context_done c.reads)) [
      | inl e ↦ rw (e, read_live) (inl o)
      | inr e ↦
          rw (e, read_live)
            (on_live-Ends (read_live env stream f) (read_live-Ends f) (ask env stream 5000 c)
              (asked env stream c) o)
    ]

    DoneLast-of_Ends : (r : Status × Conn) → Ends r → DoneLast r.1.out
    DoneLast-of_Ends (caught_up, c) k = inl k
    DoneLast-of_Ends (closed, c) k = k
    DoneLast-of_Ends (waiting, c) k = k
    DoneLast-of_Ends (unfinished, c) k = k

    go_live-DoneLast :
        (fuel : ℕ) (r : Status × Conn) → Ends r → DoneLast (go_live env stream fuel r).1.out
    unfolding go_live
    go_live-DoneLast fuel (caught_up, c) k =
        DoneLast-of_Ends (read_live env stream fuel c) (read_live-Ends fuel c k)
    go_live-DoneLast fuel (closed, c) k = k
    go_live-DoneLast fuel (waiting, c) k = k
    go_live-DoneLast fuel (unfinished, c) k = k

    after_headers-DoneLast :
        (fuel : ℕ) (r : Bool × Conn)
        → Open r.1.out
        → DoneLast (after_headers env stream fuel r).1.out
    unfolding after_headers
    after_headers-DoneLast fuel (true, c) o =
        go_live-DoneLast fuel (read_history env stream fuel c) (read_history-Ends fuel c o)
    after_headers-DoneLast fuel (false, c) o = inl o

    open_stream-DoneLast : (fuel : ℕ) → DoneLast (open_stream env stream fuel start).1.out
    unfolding open_stream
    open_stream-DoneLast fuel =
        after_headers-DoneLast fuel (then_flush env (write env (retry retry_seconds) start)) (
          then_flush-Open env (write env (retry retry_seconds) start)
            (write-Open env (retry retry_seconds) start refl tt))

-- Whatever Redis answers and whichever writes fail, a request is sent at most one done event, and
-- nothing after it.
pub serve-DoneLast :
    (env : Env) (fuel : ℕ) (query header : String) → DoneLast (serve env fuel query header).1.out
unfolding serve
serve-DoneLast env fuel query header = elim (Bool-cases (run_id query header == "")) [
  | inl e ↦ rw (e, serve) (inl (refl, tt))
  | inr e ↦ elim (Bool-cases (contains_any (run_id query header) "\n\r*?")) [
    | inl d ↦ rw (e, serve) (rw d (inl (refl, tt)))
    | inr d ↦ rw (e, serve) (rw d (open_stream-DoneLast env (run_id query header) fuel))
  ]
]

-- Redis is read only for a run id that is not empty and has none of the characters newline,
-- carriage return, `*` and `?`.
pub reads-serve :
    (env : Env) (fuel : ℕ) (query header : String)
    → 0 < (serve env fuel query header).1.reads
    → (run_id query header ≢ "") × (contains_any (run_id query header) "\n\r*?" ≡ false)
unfolding serve
reads-serve env fuel query header h = elim (Bool-cases (run_id query header == "")) [
  | inl e ↦ absurd (none_read (rw (e, serve) at h))
  | inr e ↦ elim (Bool-cases (contains_any (run_id query header) "\n\r*?")) [
    | inl d ↦ absurd (none_read (rw d at (rw (e, serve) at h)))
    | inr d ↦ (λ empty. false≢true (sym e ∙ (eq_iff (run_id query header) "").1 empty), d)
  ]
]
  where
    none_read : ¬ (0 < 0)
    none_read z = omega arith
