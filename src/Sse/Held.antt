-- ===== src/Sse/Held.antt =====
-- A stream that holds still, as modules/sse/server.go reads it, and the entry that a loop has come to.
use mathlib.Core.Bool.{false≢true}
use runner_controller_micros.Base.{
  ℕ, ◌≡◌, refl, sym, String, Bool, true, false, Option, some, List, [], ◌∷◌, ◌++◌, All, Bool-cases,
  Option-cases, if◌then◌else◌, inl, inr, take,
}
use runner_controller_micros.Sse.Stream.{
  Message, Env, Answer, results, pending, Phase, Conn, stream_read_count,
}
use runner_controller_micros.Sse.Handler.{on_entry, process}
use runner_controller_micros.Sse.Batch.{expected, ends, send_lem}

abbrev pub last_id : String → List Message → String
last_id id [] = id
last_id id (m ∷ ms) = last_id m.id ms

pub last_id-append :
    (id : String) (xs ys : List Message) → last_id id (xs ++ ys) ≡ last_id (last_id id xs) ys
last_id-append id [] ys = refl
last_id-append id (x ∷ xs) ys = last_id-append x.id xs ys

-- A read with `BLOCK 0` that finds no entries waits until there are some.
abbrev pub reply : List Message → Answer
reply [] = pending
reply (m ∷ ms) = results ((m ∷ ms) ∷ [])

-- The stream holds `log`, from its first entry to its last, for as long as it is read: a read with
-- `BLOCK 0` after the last entry of a part of it gives the first hundred entries that follow, and
-- does not return if none do.
pub record Holds (env : Env) (stream : String) (log : List Message) : Type 0 where
  pub reads :
      (n : ℕ) (before rest : List Message)
      → log ≡ before ++ rest
      → env.xread n (record { stream = stream; cursor = last_id "0-0" before; block = 0 })
        ≡ reply (take stream_read_count rest)

abbrev pub HasPayload : Message → Type 0
HasPayload m = (p : String) × (m.log_data ≡ some p)

module _ (is_eof : String → Bool) where
  pub expected-append :
      (xs ys : List Message)
      → expected is_eof (xs ++ ys)
        ≡ expected is_eof xs ++ (if ends is_eof xs then [] else expected is_eof ys)
  expected-append [] ys = refl
  expected-append (x ∷ xs) ys = elim (Option-cases x.log_data) [
    | inl e ↦ simp e (expected-append xs ys)
    | inr (p, e) ↦ elim (Bool-cases (is_eof p)) [
      | inl over ↦ simp (e, over)
      | inr more ↦ simp (e, more, expected-append xs ys)
    ]
  ]

  pub ends-append :
      (xs ys : List Message)
      → ends is_eof (xs ++ ys) ≡ (if ends is_eof xs then true else ends is_eof ys)
  ends-append [] ys = refl
  ends-append (x ∷ xs) ys = elim (Option-cases x.log_data) [
    | inl e ↦ simp e (ends-append xs ys)
    | inr (p, e) ↦ elim (Bool-cases (is_eof p)) [
      | inl over ↦ simp (e, over)
      | inr more ↦ simp (e, more, ends-append xs ys)
    ]
  ]

module _ (env : Env) (calm : (n : ℕ) → env.write_fails n ≡ false) where
  cursor-on_entry :
      (phase : Phase) (id : String) (o : Option String) (p : String) (go : Conn → Bool × Conn)
      (c : Conn) (last : String → String)
      → o ≡ some p
      → env.is_eof p ≡ false
      → ((c : Conn) → (go c).1.cursor ≡ last c.cursor)
      → (on_entry env go phase id o c).1.cursor ≡ last id
  unfolding on_entry
  cursor-on_entry phase id o p go c last e more h =
      rw (e, on_entry) (rw (send_lem env calm p c) (rw more (h _)))

  -- A batch of payloads without the end moves the cursor to its last entry.
  pub cursor-process :
      (phase : Phase) (ms : List Message) (c : Conn)
      → All HasPayload ms
      → ends env.is_eof ms ≡ false
      → (process env phase ms c).1.cursor ≡ last_id c.cursor ms
  unfolding process
  cursor-process phase [] c a e = refl
  cursor-process phase (m ∷ ms) c ((p, has), a) e =
      let open_end = rw has at e in
      elim (Bool-cases (env.is_eof p)) [
        | inl over ↦ absurd (false≢true (sym (rw over at open_end)))
        | inr more ↦
            cursor-on_entry phase m.id m.log_data p (process env phase ms) c (λ i. last_id i ms) has
              more (λ c'. cursor-process phase ms c' a (rw more at open_end))
      ]
