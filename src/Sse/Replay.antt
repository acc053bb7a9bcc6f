-- ===== src/Sse/Replay.antt =====
-- The first loop of modules/sse/server.go over a stream that holds still.
use mathlib.Core.Bool.{false≢true}
use mathlib.Core.List.{append-nil, append_assoc, map-append}
use runner_controller_micros.Base.{
  ℕ, zero, suc, ◌<◌, ◌≡◌, refl, sym, ◌∙◌, ap, subst, String, Bool, true, false, not, List, [], ◌∷◌,
  ◌++◌, map, All, arith, Bool-cases, if◌then◌else◌, inl, inr, length, take, drop, take-append-drop,
  ltb→lt, length-drop, ltb, ◌≤◌, ◌+◌, ◌%◌, nat_eq, length-append,
}
use runner_controller_micros.Sse.Stream.{
  Message, Env, history, Frame, payload, Conn, Status, closed, caught_up, waiting,
}
use runner_controller_micros.Sse.Handler.{
  process, ask, asked, read_history, on_history, after_history,
}
use runner_controller_micros.Sse.Batch.{expected, ends, closing, process_lem}
use runner_controller_micros.Sse.Held.{
  last_id, last_id-append, reply, Holds, HasPayload, expected-append, ends-append, cursor-process,
}

-- How the loop ends that has not found the end among so many entries. Only a batch of less than a
-- hundred tells it that no more follow.
abbrev pub after_last : ℕ → Status
after_last n = if nat_eq (n % 100) 0 then waiting else caught_up

-- How the loop ends over these entries, and what it has written by then.
abbrev pub Replays : Env → List Message → List Frame → Status × Conn → Type 0
Replays env rest out r =
    (r.0 ≡ (if ends env.is_eof rest then closed else after_last (length rest)))
    × (r.1.out
        ≡ out ++ (map payload (expected env.is_eof rest) ++ closing history (ends env.is_eof rest)))

not-true : (b : Bool) → false ≡ not b → b ≡ true
not-true true h = refl
not-true false h = absurd (false≢true h)

not-false : (b : Bool) → true ≡ not b → b ≡ false
not-false false h = refl
not-false true h = absurd (false≢true (sym h))

few_left : (n : ℕ) → 0 < n → n < 100 → after_last n ≡ caught_up
few_left n h k = ground arith

many_left :
    (batch rest : List Message)
    → length batch ≤ 100
    → ltb (length batch) 100 ≡ false
    → after_last (length (batch ++ rest)) ≡ after_last (length rest)
many_left batch rest h k = rw (length-append batch rest) (
    ap (λ n. if nat_eq n 0 then waiting else caught_up)
      (hundred_more (length batch) (length rest) (ground arith)))
  where
    hundred_more : (a b : ℕ) → a ≡ 100 → (a + b) % 100 ≡ b % 100
    hundred_more a b e = omega arith

module _ (env : Env) (go : Conn → Status × Conn) where
  -- A batch that holds the end, one that is all that is left, and one with more behind it.
  after_history-Replays :
      (batch rest : List Message) (out : List Frame) (r : Bool × Conn)
      → r.0 ≡ not (ends env.is_eof batch)
      → r.1.out
        ≡ out
          ++ (map payload (expected env.is_eof batch) ++ closing history (ends env.is_eof batch))
      → 0 < length batch
      → length batch ≤ 100
      → (length batch < 100 → rest ≡ [])
      → (ends env.is_eof batch ≡ false → Replays env rest r.1.out (go r.1))
      → Replays env (batch ++ rest) out (after_history env go (length batch) r)
  unfolding after_history
  after_history-Replays batch rest out (false, c) goes writes some_read bound short next =
      let over = not-true (ends env.is_eof batch) goes in
      let wrote = rw over at writes in
      rw (ends-append, expected-append) (rw over (refl, simp append-nil wrote))
  after_history-Replays batch rest out (true, c) goes writes some_read bound short next =
      let open_end = not-false (ends env.is_eof batch) goes in
      let wrote = simp append-nil at (rw open_end at writes) in
      rw (ends-append, expected-append)
        (rw open_end (elim (Bool-cases (ltb (length batch) 100)) [
          | inl few ↦
              rw (few, after_history)
                (rw (short (ltb→lt _ _ few)) (
                  rw append-nil (sym (few_left (length batch) some_read (ltb→lt _ _ few))),
                  simp append-nil wrote,
                ))
          | inr many ↦
              let (status, more) = next open_end in
              rw (many, after_history)
                (
                  status
                      ∙ ap (λ l. if ends env.is_eof rest then closed else l)
                          (sym (many_left batch rest bound many)),
                  more ∙ simp (wrote, map-append, append_assoc),
                )
        ]))

All-split :
    (xs ys : List Message) → All HasPayload (xs ++ ys) → All HasPayload xs × All HasPayload ys
All-split [] ys a = (tt, a)
All-split (x ∷ xs) ys (h, a) = let (b, d) = All-split xs ys a in ((h, b), d)

positive : (m : Message) (ms : List Message) → 0 < length (take 100 (m ∷ ms))
positive m ms = omega arith

take-bound : (n : ℕ) (xs : List Message) → length (take n xs) ≤ n
take-bound zero xs = omega arith
take-bound (suc n) [] = omega arith
take-bound (suc n) (x ∷ xs) = let rest = take-bound n xs in omega arith

drop-eq-nil : (n : ℕ) (xs : List Message) → length (take n xs) < n → drop n xs ≡ []
drop-eq-nil zero xs h = elim h [ ]
drop-eq-nil (suc n) [] h = refl
drop-eq-nil (suc n) (x ∷ xs) h = drop-eq-nil n xs (omega arith)

module _ (env : Env) (stream : String) (log : List Message)
    (calm : (n : ℕ) → env.write_fails n ≡ false) (holds : Holds env stream log) where
  ask_lem :
      (before rest : List Message) (c : Conn)
      → log ≡ before ++ rest
      → c.cursor ≡ last_id "0-0" before
      → ask env stream 0 c ≡ reply (take 100 rest)
  ask_lem before rest c split here =
      ap (λ i. env.xread c.reads (record { stream = stream; cursor = i; block = 0 })) here
      ∙ holds.reads c.reads before rest split

  -- Over a stream that stays as it is, to a client for whom no write fails: if the entries after the
  -- cursor all have a payload and there are more rounds than such entries, the first loop writes
  -- their payloads, each once and in their order, up to the end if it is there, and the done event
  -- after the end. Then it returns if the end is there; if not it hands on to the second loop, unless
  -- the number of the entries, which may be none, is a multiple of a hundred: then its last read
  -- waits for an entry that does not come.
  pub read_history-Replays :
      (fuel : ℕ) (before rest : List Message) (c : Conn)
      → log ≡ before ++ rest
      → c.cursor ≡ last_id "0-0" before
      → All HasPayload rest
      → length rest < fuel
      → Replays env rest c.out (read_history env stream fuel c)
  unfolding read_history
  read_history-Replays zero before rest c split here all fuel = elim fuel [ ]
  read_history-Replays (suc f) before [] c split here all fuel =
      rw (ask_lem before [] c split here) (refl, sym (append-nil c.out))
  read_history-Replays (suc f) before (m ∷ ms) c split here all fuel =
      let batch = take 100 (m ∷ ms) in
      let rest = drop 100 (m ∷ ms) in
      let whole = take-append-drop 100 (m ∷ ms) in
      let (all_batch, all_rest) = All-split batch rest (subst (All HasPayload) (sym whole) all) in
      let (goes, writes) = process_lem env calm history batch (asked env stream c) in
      (rw (ask_lem before (m ∷ ms) c split here) (
        subst
          (λ l.
            Replays env l c.out
              (on_history env (read_history env stream f) (reply batch) (asked env stream c)))
          whole
          (after_history-Replays env (read_history env stream f) batch rest c.out
            (process env history batch (asked env stream c)) goes writes (positive m ms)
            (take-bound 100 (m ∷ ms)) (drop-eq-nil 100 (m ∷ ms))
            (λ open_end.
              read_history-Replays f (before ++ batch) rest _
                (split ∙ ap (λ l. before ++ l) (sym whole) ∙ sym (append_assoc before batch rest))
                (cursor-process env calm history batch (asked env stream c) all_batch open_end
                  ∙ rw here (sym (last_id-append "0-0" before batch)))
                all_rest (omega (arith, fuel, length-drop 99 ms))))))
