-- ===== src/Sse/Batch.antt =====
-- One batch of entries: what the loops of modules/sse/server.go write for it to a client whose
-- connection holds.
use mathlib.Core.List.{append-nil, append_assoc}
use runner_controller_micros.Base.{
  ℕ, ◌+◌, ◌≡◌, refl, sym, ◌∙◌, String, Bool, true, false, not, Option, none, some, List, [], ◌∷◌,
  ◌++◌, map, Bool-cases, if◌then◌else◌, inl, inr,
}
use runner_controller_micros.Sse.Stream.{
  Message, Env, Phase, history, live, Frame, payload, done, Conn,
}
use runner_controller_micros.Sse.Handler.{
  write, flush, deliver, counted, done_message, tally, send, finish, on_entry, process,
}

-- The payloads of the entries, up to the first that is the end, and with it.
abbrev pub expected_after : (String → Bool) → Option String → List String → List String
expected_after is_eof none rest = rest
expected_after is_eof (some p) rest = p ∷ (if is_eof p then [] else rest)

abbrev pub expected : (String → Bool) → List Message → List String
expected is_eof [] = []
expected is_eof (msg ∷ ms) = expected_after is_eof msg.log_data (expected is_eof ms)

abbrev pub ends_after : (String → Bool) → Option String → Bool → Bool
ends_after is_eof none rest = rest
ends_after is_eof (some p) rest = if is_eof p then true else rest

-- Whether one of the entries is the end.
abbrev pub ends : (String → Bool) → List Message → Bool
ends is_eof [] = false
ends is_eof (msg ∷ ms) = ends_after is_eof msg.log_data (ends is_eof ms)

abbrev pub closing : Phase → Bool → List Frame
closing phase true = done (done_message phase) ∷ []
closing phase false = []

module _ (env : Env) (calm : (n : ℕ) → env.write_fails n ≡ false) where
  pub send_lem :
      (p : String) (c : Conn) → send env p c ≡ (true, counted (deliver (payload p) (counted c)))
  unfolding send write flush
  send_lem p c = rw (calm c.writes, send, write) (rw (calm (c.writes + 1)))

  finish_lem :
      (phase : Phase) (c : Conn)
      → (finish env phase c).out ≡ c.out ++ (done (done_message phase) ∷ [])
  unfolding finish write flush
  finish_lem phase c = rw (calm c.writes, finish) (rw (calm (c.writes + 1)))

  out-tally : (phase : Phase) (c : Conn) → (tally phase c).out ≡ c.out
  out-tally history c = refl
  out-tally live c = refl

  -- What the rest of the loop does, for the entries that are left.
  abbrev Writes : Phase → List Message → (Conn → Bool × Conn) → Type 0
  Writes phase ms go =
      (c : Conn)
      → ((go c).0 ≡ not (ends env.is_eof ms))
        × ((go c).1.out
            ≡ c.out ++ (map payload (expected env.is_eof ms) ++ closing phase (ends env.is_eof ms)))

  on_entry_lem :
      (phase : Phase) (id : String) (o : Option String) (ms : List Message)
      (go : Conn → Bool × Conn)
      → Writes phase ms go
      → (c : Conn)
      → ((on_entry env go phase id o c).0 ≡ not (ends_after env.is_eof o (ends env.is_eof ms)))
        × ((on_entry env go phase id o c).1.out
            ≡ c.out
              ++ (map payload (expected_after env.is_eof o (expected env.is_eof ms))
                  ++ closing phase (ends_after env.is_eof o (ends env.is_eof ms))))
  unfolding on_entry
  on_entry_lem phase id none ms go h c = h c
  on_entry_lem phase id (some p) ms go h c = rw (send_lem p c) (elim (Bool-cases (env.is_eof p)) [
    | inl over ↦ rw over (
      refl,
      finish_lem phase (tally phase (counted (deliver (payload p) (counted c))))
          ∙ simp (out-tally, append_assoc),
    )
    | inr more ↦ rw more (
        let (goes, writes) =
          h (record (tally phase (counted (deliver (payload p) (counted c)))) { cursor = id }) in
        (goes, writes ∙ simp (out-tally, append_assoc)))
  ])

  -- A batch writes the payloads of its entries in their order, up to the end if it is there, and
  -- then the done event; it lets the loop go on exactly when the end is not there.
  pub process_lem :
      (phase : Phase) (ms : List Message) (c : Conn)
      → ((process env phase ms c).0 ≡ not (ends env.is_eof ms))
        × ((process env phase ms c).1.out
            ≡ c.out ++ (map payload (expected env.is_eof ms) ++ closing phase (ends env.is_eof ms)))
  unfolding process
  process_lem phase [] c = (refl, sym (append-nil c.out))
  process_lem phase (msg ∷ ms) c =
      on_entry_lem phase msg.id msg.log_data ms (process env phase ms) (process_lem phase ms) c
