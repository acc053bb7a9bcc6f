-- ===== src/Sse/Growing.antt =====
-- The handler of modules/sse/server.go over a log that a program goes on writing while it is read.
use mathlib.Core.List.{append_assoc}
use runner_controller_micros.Base.{
  ℕ, ◌≡◌, refl, sym, ◌∙◌, ap, ◌⊎◌, inl, inr, String, Bool, true, false, Option, none, some, List,
  [], ◌∷◌, ◌++◌, All-append, Bool-cases,
}
use runner_controller_micros.Sse.Stream.{
  Message, Env, Phase, history, live, Frame, payload, done, Conn,
}
use runner_controller_micros.Sse.Handler.{
  done_message, tally, write, flush, then_flush, send, finish, after_eof, after_send, on_entry,
  process,
}
use runner_controller_micros.Sse.Frames.{out-flush, out-write}
use runner_controller_micros.Sse.Batch.{ends}
use runner_controller_micros.Sse.Held.{last_id}
use runner_controller_micros.Sse.Log.{
  Streams, sent_for, IsSilent, Tracks, Goes, sent_for-next, ends-next, last_id-next, split-next,
}

module _ (env : Env) where
  reads-write : (f : Frame) (c : Conn) → (write env f c).1.reads ≡ c.reads
  unfolding write
  reads-write f c = elim (Bool-cases (env.write_fails c.writes)) [ inl e ↦ rw e | inr e ↦ rw e ]

  reads-flush : (c : Conn) → (flush env c).1.reads ≡ c.reads
  unfolding flush
  reads-flush c = elim (Bool-cases (env.write_fails c.writes)) [ inl e ↦ rw e | inr e ↦ rw e ]

  -- What a payload that was sent, or was not, leaves.
  abbrev Delivered : String → Conn → Bool × Conn → Type 0
  Delivered p c (true, d) = (d.reads ≡ c.reads) × (d.out ≡ c.out ++ (payload p ∷ []))
  Delivered p c (false, d) =
      (d.reads ≡ c.reads) × ((d.out ≡ c.out) ⊎ (d.out ≡ c.out ++ (payload p ∷ [])))

  then_flush-Delivered :
      (p : String) (c : Conn) (r : Bool × Conn) → Delivered p c r → Delivered p c (then_flush env r)
  unfolding then_flush flush
  then_flush-Delivered p c (false, d) h = h
  then_flush-Delivered p c (true, d) h = elim (Bool-cases (env.write_fails d.writes)) [
    | inl e ↦ rw e (h.0, inr h.1)
    | inr e ↦ rw e h
  ]

  send-Delivered : (p : String) (c : Conn) → Delivered p c (send env p c)
  unfolding send write
  send-Delivered p c =
      then_flush-Delivered p c (write env (payload p) c)
        (elim (Bool-cases (env.write_fails c.writes)) [
          | inl e ↦ rw e (refl, inl refl)
          | inr e ↦ rw e (refl, refl)
        ])

  -- The rest of the loop over a batch, and the frames after a refusal of the connection.
  module _ (log : ℕ → List Message) where
    finish_lem :
        (phase : Phase) (c : Conn) (before rest : List Message)
        → log c.reads ≡ before ++ rest
        → c.out ≡ sent_for env before
        → ends env.is_eof before ≡ true
        → Streams env (log (finish env phase c).reads) (finish env phase c).out
    unfolding finish
    finish_lem phase c before rest split sent over =
        let w = write env (done (done_message phase)) c in
        rw (reads-flush w.1, out-flush env w.1, reads-write (done (done_message phase)) c)
          (inr (
            before,
            rest,
            split,
            elim (out-write env (done (done_message phase)) c) [
              | inl same ↦ inl (same ∙ sent)
              | inr ended ↦ inr (
                over,
                done_message phase,
                ended ∙ ap (λ o. o ++ (done (done_message phase) ∷ [])) sent,
              )
            ],
          ))

    abbrev Continues : List Message → (Conn → Bool × Conn) → Type 0
    Continues todo go = (c : Conn) → Tracks env (log c.reads) todo c → Goes env log (go c)

    after_eof_lem :
        (go : Conn → Bool × Conn) (phase : Phase) (todo : List Message) (m : Message) (c : Conn)
        (before more : List Message) (b : Bool)
        → Continues todo go
        → log c.reads ≡ before ++ (todo ++ more)
        → last_id "0-0" before ≡ m.id
        → c.out ≡ sent_for env before
        → ends env.is_eof before ≡ b
        → Goes env log (after_eof env go phase m.id b c)
    unfolding after_eof
    after_eof_lem go phase todo m c before more true k split last sent over =
        finish_lem phase c before (todo ++ more) split sent over
    after_eof_lem go phase todo m c before more false k split last sent over =
        k (record c { cursor = m.id })
          (record {
            before = before;
            skipped = [];
            more = more;
            split = split;
            silent = tt;
            here = sym last;
            sent = sent;
            going = over;
          })

    tally_reads : (phase : Phase) (c : Conn) → (tally phase c).reads ≡ c.reads
    tally_reads history c = refl
    tally_reads live c = refl

    tally_out : (phase : Phase) (c : Conn) → (tally phase c).out ≡ c.out
    tally_out history c = refl
    tally_out live c = refl

    after_send_lem :
        (go : Conn → Bool × Conn) (phase : Phase) (todo : List Message) (m : Message) (p : String)
        (c : Conn) (r : Bool × Conn)
        → Continues todo go
        → m.log_data ≡ some p
        → Tracks env (log c.reads) (m ∷ todo) c
        → Delivered p c r
        → Goes env log (after_send env go phase m.id p r)
    unfolding after_send
    after_send_lem go phase todo m p c (true, d) k has t h =
        let next = t.before ++ (t.skipped ++ (m ∷ [])) in
        after_eof_lem go phase todo m (tally phase d) next t.more (env.is_eof p) k
          (rw (tally_reads phase d, h.0)
            (split-next env t.before t.skipped m p t.silent t.going has (log c.reads) todo t.more
              t.split))
          (last_id-next env t.before t.skipped m p t.silent t.going has)
          (rw (tally_out phase d, h.1, t.sent)
            (sym (sent_for-next env t.before t.skipped m p t.silent t.going has)))
          (ends-next env t.before t.skipped m p t.silent t.going has)
    after_send_lem go phase todo m p c (false, d) k has t h = rw h.0 (elim h.1 [
      | inl same ↦ inr (t.before, t.skipped ++ ((m ∷ todo) ++ t.more), t.split, inl (same ∙ t.sent))
      | inr sent ↦ inr (
        t.before ++ (t.skipped ++ (m ∷ [])),
        todo ++ t.more,
        split-next env t.before t.skipped m p t.silent t.going has (log c.reads) todo t.more
            t.split,
        inl (
            sent ∙ rw t.sent (sym (sent_for-next env t.before t.skipped m p t.silent t.going has))),
      )
    ])

    on_entry_lem :
        (go : Conn → Bool × Conn) (phase : Phase) (todo : List Message) (m : Message)
        (o : Option String)
        → Continues todo go
        → m.log_data ≡ o
        → Continues (m ∷ todo) (on_entry env go phase m.id o)
    unfolding on_entry
    on_entry_lem go phase todo m none k has c t = k c (record {
      before = t.before;
      skipped = t.skipped ++ (m ∷ []);
      more = t.more;
      split = t.split ∙ simp append_assoc;
      silent = All-append IsSilent t.skipped (m ∷ []) t.silent (has, tt);
      here = t.here;
      sent = t.sent;
      going = t.going;
    })
    on_entry_lem go phase todo m (some p) k has c t =
        after_send_lem go phase todo m p c (send env p c) k has t (send-Delivered p c)

    pub process_lem : (phase : Phase) (ms : List Message) → Continues ms (process env phase ms)
    unfolding process
    process_lem phase [] c t = t
    process_lem phase (m ∷ ms) c t =
        on_entry_lem (process env phase ms) phase ms m m.log_data (process_lem phase ms) refl c t

    pub Streams-of_Tracks :
        {todo : List Message} (c : Conn)
        → Tracks env (log c.reads) todo c
        → Streams env (log c.reads) c.out
    Streams-of_Tracks {todo} c t =
        inr (t.before, t.skipped ++ (todo ++ t.more), t.split, inl t.sent)
