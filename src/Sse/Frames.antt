-- ===== src/Sse/Frames.antt =====
-- The frames that the loop over a batch of modules/sse/server.go writes, however the client's
-- connection behaves.
use runner_controller_micros.Base.{
  ◌≡◌, refl, ◌⊎◌, inl, inr, String, Bool, true, false, Option, none, some, List, [], ◌∷◌, ◌++◌, All,
  All-append, Bool-cases,
}
use runner_controller_micros.Sse.Stream.{
  Message, Env, Phase, history, live, Frame, payload, done, Conn,
}
use runner_controller_micros.Sse.Handler.{
  then_flush, tally, done_message, write, flush, send, finish, process, on_entry, after_send,
  after_eof,
}

abbrev pub is_done : Frame → Bool
is_done (done _) = true
is_done _ = false

-- No done event is among the frames.
abbrev pub Open : List Frame → Type 0
Open = All (λ f. is_done f ≡ false)

-- A done event is the last frame, or there is none.
abbrev pub DoneLast : List Frame → Type 0
DoneLast out =
    Open out ⊎ ((front : List Frame) × (m : String) × (out ≡ front ++ (done m ∷ [])) × Open front)

-- The handler goes on only while no done event was sent.
abbrev pub Keeps : Bool × Conn → Type 0
Keeps (true, c) = Open c.out
Keeps (false, c) = DoneLast c.out

module _ (env : Env) where
  pub out-flush : (c : Conn) → (flush env c).1.out ≡ c.out
  unfolding flush
  out-flush c = elim (Bool-cases (env.write_fails c.writes)) [ inl e ↦ rw e | inr e ↦ rw e ]

  pub out-write :
      (f : Frame) (c : Conn)
      → ((write env f c).1.out ≡ c.out) ⊎ ((write env f c).1.out ≡ c.out ++ (f ∷ []))
  unfolding write
  out-write f c = elim (Bool-cases (env.write_fails c.writes)) [
    | inl e ↦ inl (rw e)
    | inr e ↦ inr (rw e)
  ]

  pub write-Open :
      (f : Frame) (c : Conn) → is_done f ≡ false → Open c.out → Open (write env f c).1.out
  write-Open f c plain o = elim (out-write f c) [
    | inl e ↦ rw e o
    | inr e ↦ rw e (All-append (λ f. is_done f ≡ false) c.out (f ∷ []) o (plain, tt))
  ]

  pub then_flush-Open : (r : Bool × Conn) → Open r.1.out → Open (then_flush env r).1.out
  unfolding then_flush
  then_flush-Open (true, c) o = rw (out-flush c) o
  then_flush-Open (false, c) o = o

  send-Open : (p : String) (c : Conn) → Open c.out → Open (send env p c).1.out
  unfolding send
  send-Open p c o = then_flush-Open (write env (payload p) c) (write-Open (payload p) c refl o)

  finish-DoneLast : (phase : Phase) (c : Conn) → Open c.out → DoneLast (finish env phase c).out
  unfolding finish
  finish-DoneLast phase c o =
      rw (out-flush (write env (done (done_message phase)) c).1)
        (elim (out-write (done (done_message phase)) c) [
          | inl e ↦ inl (rw e o)
          | inr e ↦ inr (c.out, done_message phase, e, o)
        ])

  tally-Open : (phase : Phase) (c : Conn) → Open c.out → Open (tally phase c).out
  tally-Open history c o = o
  tally-Open live c o = o

  abbrev pub KeepsOpen : (Conn → Bool × Conn) → Type 0
  KeepsOpen go = (c : Conn) → Open c.out → Keeps (go c)

  after_eof-Keeps :
      (go : Conn → Bool × Conn) (phase : Phase) (id : String) (b : Bool) (c : Conn)
      → KeepsOpen go
      → Open c.out
      → Keeps (after_eof env go phase id b c)
  unfolding after_eof
  after_eof-Keeps go phase id true c k o = finish-DoneLast phase c o
  after_eof-Keeps go phase id false c k o = k (record c { cursor = id }) o

  after_send-Keeps :
      (go : Conn → Bool × Conn) (phase : Phase) (id p : String) (r : Bool × Conn)
      → KeepsOpen go
      → Open r.1.out
      → Keeps (after_send env go phase id p r)
  unfolding after_send
  after_send-Keeps go phase id p (false, c) k o = inl o
  after_send-Keeps go phase id p (true, c) k o =
      after_eof-Keeps go phase id (env.is_eof p) (tally phase c) k (tally-Open phase c o)

  on_entry-Keeps :
      (go : Conn → Bool × Conn) (phase : Phase) (id : String) (o : Option String)
      → KeepsOpen go
      → KeepsOpen (on_entry env go phase id o)
  unfolding on_entry
  on_entry-Keeps go phase id none k c o = k c o
  on_entry-Keeps go phase id (some p) k c o =
      after_send-Keeps go phase id p (send env p c) k (send-Open p c o)

  pub process-Keeps : (phase : Phase) (ms : List Message) → KeepsOpen (process env phase ms)
  unfolding process
  process-Keeps phase [] c o = o
  process-Keeps phase (m ∷ ms) c o =
      on_entry-Keeps (process env phase ms) phase m.id m.log_data (process-Keeps phase ms) c o
