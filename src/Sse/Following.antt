-- ===== src/Sse/Following.antt =====
-- The two loops of modules/sse/server.go over a log that grows while they read it.
use mathlib.Core.List.{append_assoc}
use runner_controller_micros.Base.{
  ℕ, zero, suc, ◌+◌, ◌≡◌, refl, sym, ◌∙◌, ap, ◌⊎◌, inl, inr, String, ◌==◌, Bool, true, false, List,
  [], ◌∷◌, ◌++◌, Bool-cases, ltb, length,
}
use runner_controller_micros.Base.Text.{contains_any}
use runner_controller_micros.Sse.Stream.{
  Message, Answer, results, nil_reply, no_group, canceled, failed, Env, history, live, error_reply,
  retry, Conn, start, Status, closed, caught_up, waiting, unfinished, pending,
}
use runner_controller_micros.Sse.Handler.{
  first_messages, then_flush, write, flush, process, ask, asked, after_history, on_batch,
  on_history, after_live, on_live, read_history, read_live, go_live, after_headers, open_stream,
  run_id, serve,
}
use runner_controller_micros.Sse.Log.{Follows, Streams, Tracks, Goes}
use runner_controller_micros.Sse.Growing.{process_lem, Streams-of_Tracks}

module _ (env : Env) (stream : String) (log : ℕ → List Message)
    (follows : Follows env stream log) where
  -- How a loop ends: it hands on a connection that is up to date, or the handler returns.
  abbrev EndsWell : Status × Conn → Type 0
  EndsWell (caught_up, c) = Tracks env (log c.reads) [] c
  EndsWell (waiting, c) = Streams env (log c.reads) c.out
  EndsWell (closed, c) = Streams env (log c.reads) c.out
  EndsWell (unfinished, c) = Streams env (log c.reads) c.out

  abbrev Round : (Conn → Status × Conn) → Type 0
  Round go = (c : Conn) → Tracks env (log c.reads) [] c → EndsWell (go c)

  -- After a read that gave no entries.
  asked_lem :
      (c : Conn)
      → Tracks env (log c.reads) [] c
      → Tracks env (log (c.reads + 1)) [] (asked env stream c)
  asked_lem c t =
      let (extra, grown) = follows.grows c.reads in
      record {
        before = t.before;
        skipped = t.skipped;
        more = t.more ++ extra;
        split = grown ∙ rw t.split (simp append_assoc);
        silent = t.silent;
        here = t.here;
        sent = t.sent;
        going = t.going;
      }

  -- After a read that gave entries.
  read_lem :
      (block : ℕ) (c : Conn) (rs : List (List Message))
      → Tracks env (log c.reads) [] c
      → ask env stream block c ≡ results rs
      → Tracks env (log (c.reads + 1)) (first_messages rs) (asked env stream c)
  read_lem block c rs t e =
      let (extra, grown) = follows.grows c.reads in
      let (more, next) = follows.reads c.reads block t.before (t.skipped ++ t.more) rs t.split (
        ap (λ i. env.xread c.reads (record { stream = stream; cursor = i; block = block }))
          (sym t.here)
        ∙ e) in
      record {
        before = t.before;
        skipped = [];
        more = more ++ extra;
        split = grown ∙ rw t.split (rw next (simp append_assoc));
        silent = tt;
        here = t.here;
        sent = t.sent;
        going = t.going;
      }

  module _ (go : Conn → Status × Conn) (next : Round go) where
    after_history_lem :
        (n : ℕ) (r : Bool × Conn) → Goes env log r → EndsWell (after_history env go n r)
    unfolding after_history
    after_history_lem n (false, c) k = k
    after_history_lem n (true, c) k = elim (Bool-cases (ltb n 100)) [
      | inl e ↦ rw (e, after_history) k
      | inr e ↦ rw (e, after_history) (next c k)
    ]

    on_batch_lem :
        (ms : List Message) (c : Conn)
        → Tracks env (log c.reads) ms c
        → EndsWell (on_batch env go ms c)
    unfolding on_batch
    on_batch_lem [] c t = t
    on_batch_lem (m ∷ ms) c t =
        after_history_lem (length (m ∷ ms)) (process env history (m ∷ ms) c)
          (process_lem env log history (m ∷ ms) c t)

    after_live_lem : (r : Bool × Conn) → Goes env log r → EndsWell (after_live env go r)
    unfolding after_live
    after_live_lem (false, c) k = k
    after_live_lem (true, c) k = next c k

    on_history_lem :
        (a : Answer) (c : Conn)
        → Tracks env (log c.reads) [] c
        → ask env stream 0 c ≡ a
        → EndsWell (on_history env go a (asked env stream c))
    unfolding on_history
    on_history_lem nil_reply c t e = asked_lem c t
    on_history_lem no_group c t e = asked_lem c t
    on_history_lem canceled c t e = Streams-of_Tracks env log (asked env stream c) (asked_lem c t)
    on_history_lem pending c t e = Streams-of_Tracks env log (asked env stream c) (asked_lem c t)
    on_history_lem failed c t e = Streams-of_Tracks env log (asked env stream c) (asked_lem c t)
    on_history_lem (results rs) c t e =
        on_batch_lem (first_messages rs) (asked env stream c) (read_lem 0 c rs t e)

    on_live_lem :
        (a : Answer) (c : Conn)
        → Tracks env (log c.reads) [] c
        → ask env stream 5000 c ≡ a
        → EndsWell (on_live env go a (asked env stream c))
    unfolding on_live
    on_live_lem nil_reply c t e = next (asked env stream c) (asked_lem c t)
    on_live_lem no_group c t e = next (asked env stream c) (asked_lem c t)
    on_live_lem canceled c t e = Streams-of_Tracks env log (asked env stream c) (asked_lem c t)
    on_live_lem pending c t e = Streams-of_Tracks env log (asked env stream c) (asked_lem c t)
    on_live_lem failed c t e = next (asked env stream c) (asked_lem c t)
    on_live_lem (results rs) c t e =
        after_live_lem (process env live (first_messages rs) (asked env stream c)) (
          process_lem env log live (first_messages rs) (asked env stream c)
            (read_lem 5000 c rs t e))

  read_history_lem : (fuel : ℕ) → Round (read_history env stream fuel)
  unfolding read_history
  read_history_lem zero c t = Streams-of_Tracks env log c t
  read_history_lem (suc f) c t =
      on_history_lem (read_history env stream f) (read_history_lem f) (ask env stream 0 c) c t refl

  read_live_lem : (fuel : ℕ) → Round (read_live env stream fuel)
  unfolding read_live
  read_live_lem zero c t = Streams-of_Tracks env log c t
  read_live_lem (suc f) c t = elim (Bool-cases (env.context_done c.reads)) [
    | inl e ↦ rw (e, read_live) (Streams-of_Tracks env log c t)
    | inr e ↦
        rw (e, read_live)
          (on_live_lem (read_live env stream f) (read_live_lem f) (ask env stream 5000 c) c t refl)
  ]

  Streams-of_EndsWell : (r : Status × Conn) → EndsWell r → Streams env (log r.1.reads) r.1.out
  Streams-of_EndsWell (caught_up, c) k = Streams-of_Tracks env log c k
  Streams-of_EndsWell (closed, c) k = k
  Streams-of_EndsWell (waiting, c) k = k
  Streams-of_EndsWell (unfinished, c) k = k

  -- The handler has returned, or was cut off after its fuel.
  Outcome : Status × Conn → Type 0
  Outcome r = Streams env (log r.1.reads) r.1.out

  go_live_lem : (fuel : ℕ) (r : Status × Conn) → EndsWell r → Outcome (go_live env stream fuel r)
  unfolding go_live Outcome
  go_live_lem fuel (caught_up, c) k =
      Streams-of_EndsWell (read_live env stream fuel c) (read_live_lem fuel c k)
  go_live_lem fuel (closed, c) k = k
  go_live_lem fuel (waiting, c) k = k
  go_live_lem fuel (unfinished, c) k = k

  after_headers_lem :
      (fuel : ℕ) (r : Bool × Conn) → Goes env log r → Outcome (after_headers env stream fuel r)
  unfolding after_headers Outcome
  after_headers_lem fuel (true, c) k =
      go_live_lem fuel (read_history env stream fuel c) (read_history_lem fuel c k)
  after_headers_lem fuel (false, c) k = k

  opened : Goes env log (then_flush env (write env (retry 3) start))
  unfolding then_flush write flush
  opened = elim (Bool-cases (env.write_fails 0)) [
    | inl e ↦ rw e (inl refl)
    | inr e ↦ elim (Bool-cases (env.write_fails (0 + 1))) [
      | inl f ↦ rw (e, f) (inr ([], log 0, refl, inl refl))
      | inr f ↦
          rw (e, f)
            (record {
              before = [];
              skipped = [];
              more = log 0;
              split = refl;
              silent = tt;
              here = refl;
              sent = refl;
              going = refl;
            })
    ]
  ]

  open_stream_lem :
      (fuel : ℕ)
      → Streams env
          (log (open_stream env stream fuel start).1.reads)
          (open_stream env stream fuel start).1.out
  unfolding open_stream Outcome
  open_stream_lem fuel = after_headers_lem fuel (then_flush env (write env (retry 3) start)) opened

-- Over a log to which entries are added while it is read, whichever reads and writes fail: unless the
-- run id is refused, which is all that the client then gets, the client has been sent nothing yet,
-- or the retry line and the payloads of a front part of the log, each once and in order, none of
-- them behind the end, and then the done event at most if that part holds the end.
pub serve-Streams :
    (env : Env) (log : ℕ → List Message) (fuel : ℕ) (query header : String)
    → Follows env (run_id query header) log
    → ((code : ℕ) × (m : String) × ((serve env fuel query header).1.out ≡ error_reply code m ∷ []))
      ⊎ Streams env (log (serve env fuel query header).1.reads) (serve env fuel query header).1.out
unfolding serve
serve-Streams env log fuel query header follows = elim (Bool-cases (run_id query header == "")) [
  | inl e ↦ rw (e, serve) (inl (400, _, refl))
  | inr e ↦ elim (Bool-cases (contains_any (run_id query header) "\n\r*?")) [
    | inl d ↦ rw (e, serve) (rw d (inl (400, _, refl)))
    | inr d ↦
        rw (e, serve) (rw d (inr (open_stream_lem env (run_id query header) log follows fuel)))
  ]
]
