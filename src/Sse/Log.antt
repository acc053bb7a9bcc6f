-- ===== src/Sse/Log.antt =====
-- A log that a program goes on writing while modules/sse/server.go reads it, and the part of it that
-- a client has been sent.
use mathlib.Core.List.{append_assoc, map-append}
use runner_controller_micros.Base.{
  ℕ, ◌+◌, ◌≡◌, refl, ◌∙◌, ◌⊎◌, inl, inr, String, Bool, true, false, none, some, List, [], ◌∷◌, ◌++◌,
  map, All, Bool-cases,
}
use runner_controller_micros.Sse.Stream.{Message, results, Env, Frame, retry, payload, done, Conn}
use runner_controller_micros.Sse.Handler.{first_messages}
use runner_controller_micros.Sse.Batch.{expected, ends}
use runner_controller_micros.Sse.Held.{last_id, last_id-append, expected-append, ends-append}

-- `log n` is what the stream holds at the read of number `n`. It only grows, at its end. What a read
-- after an entry gives, if it gives entries, is a part of what follows that entry, from its first on;
-- it may be any error instead.
pub record Follows (env : Env) (stream : String) (log : ℕ → List Message) : Type 0 where
  pub grows : (n : ℕ) → (extra : List Message) × (log (n + 1) ≡ log n ++ extra)
  pub reads :
      (n : ℕ) (block : ℕ) (before rest : List Message) (rs : List (List Message))
      → log n ≡ before ++ rest
      → env.xread n (record { stream = stream; cursor = last_id "0-0" before; block = block })
        ≡ results rs
      → (more : List Message) × (rest ≡ first_messages rs ++ more)

abbrev pub IsSilent : Message → Type 0
IsSilent m = m.log_data ≡ none

-- What a client is sent for the entries of `before`: the retry line and the payloads, up to the end.
abbrev pub sent_for : Env → List Message → List Frame
sent_for env before = retry 3 ∷ map payload (expected env.is_eof before)

-- The frames are those for a front part of the log, with at most a done event behind them, which is
-- there only if that part holds the end; before the retry line there are none.
abbrev pub Streams : Env → List Message → List Frame → Type 0
Streams env log out =
    (out ≡ [])
    ⊎ ((before : List Message) × (rest : List Message) × (log ≡ before ++ rest)
        × ((out ≡ sent_for env before)
            ⊎ ((ends env.is_eof before ≡ true)
                × (m : String) × (out ≡ sent_for env before ++ (done m ∷ [])))))

module _ (env : Env) where
  -- The entries of `before` are dealt with, `skipped` had no payload, and `todo` comes next.
  pub record Tracks (log todo : List Message) (c : Conn) : Type 0 where
    pub before : List Message
    pub skipped : List Message
    pub more : List Message
    pub split : log ≡ before ++ (skipped ++ (todo ++ more))
    pub silent : All IsSilent skipped
    pub here : c.cursor ≡ last_id "0-0" before
    pub sent : c.out ≡ sent_for env before
    pub going : ends env.is_eof before ≡ false

  abbrev pub Goes : (ℕ → List Message) → Bool × Conn → Type 0
  Goes log (true, c) = Tracks (log c.reads) [] c
  Goes log (false, c) = Streams env (log c.reads) c.out

  ends-silent : (ms : List Message) → All IsSilent ms → ends env.is_eof ms ≡ false
  ends-silent [] h = refl
  ends-silent (m ∷ ms) h = rw h.0 (ends-silent ms h.1)

  expected-silent : (ms : List Message) → All IsSilent ms → expected env.is_eof ms ≡ []
  expected-silent [] h = refl
  expected-silent (m ∷ ms) h = rw h.0 (expected-silent ms h.1)

  -- With the next entry that has a payload.
  module _ (before skipped : List Message) (m : Message) (p : String)
      (silent : All IsSilent skipped) (going : ends env.is_eof before ≡ false)
      (has : m.log_data ≡ some p) where
    expected-next :
        expected env.is_eof (before ++ (skipped ++ (m ∷ [])))
        ≡ expected env.is_eof before ++ (p ∷ [])
    expected-next =
        rw
          (
            expected-append env.is_eof before _,
            going,
            expected-append env.is_eof skipped,
            ends-silent skipped silent,
            expected-silent skipped silent,
            has,
          )
          (elim (Bool-cases (env.is_eof p)) [ inl e ↦ rw e | inr e ↦ rw e ])

    pub sent_for-next :
        sent_for env (before ++ (skipped ++ (m ∷ []))) ≡ sent_for env before ++ (payload p ∷ [])
    sent_for-next = rw expected-next (simp map-append)

    pub ends-next : ends env.is_eof (before ++ (skipped ++ (m ∷ []))) ≡ env.is_eof p
    ends-next =
        rw
          (
            ends-append env.is_eof before _,
            going,
            ends-append env.is_eof skipped,
            ends-silent skipped silent,
            has,
          )
          (elim (Bool-cases (env.is_eof p)) [ inl e ↦ rw e | inr e ↦ rw e ])

    pub last_id-next : last_id "0-0" (before ++ (skipped ++ (m ∷ []))) ≡ m.id
    last_id-next = last_id-append "0-0" before _ ∙ last_id-append _ skipped (m ∷ [])

    pub split-next :
        (log todo more : List Message)
        → log ≡ before ++ (skipped ++ ((m ∷ todo) ++ more))
        → log ≡ (before ++ (skipped ++ (m ∷ []))) ++ (todo ++ more)
    split-next log todo more e = e ∙ simp append_assoc
