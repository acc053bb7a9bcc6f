-- ===== src/Tests/Sse.antt =====
-- A request for the logs of a run that is over, and one whose stream has a malformed entry.
use runner_controller_micros.Base.{
  zero, suc, subst, ap, ◌+◌, ℕ, ◌≡◌, refl, ◌≢◌, String, ◌==◌, false, none, some, List, [], ◌∷◌,
  ◌++◌, map, All, arith, eq_iff, if◌then◌else◌, take,
}
use runner_controller_micros.Base.Text.{contains_any}
use runner_controller_micros.Sse.Stream.{
  Message, Read, Answer, results, pending, Env, retry, payload, done, start, closed, unfinished,
}
use runner_controller_micros.Sse.Handler.{
  write, flush, then_flush, after_headers, open_stream, on_history, process, on_entry, send, finish,
  after_send, after_eof, go_live, run_id, serve, read_live, read_history,
}
use runner_controller_micros.Sse.Batch.{expected}
use runner_controller_micros.Sse.Frames.{DoneLast}
use runner_controller_micros.Sse.Held.{Holds, HasPayload, last_id, reply}
use runner_controller_micros.Sse.Replay.{Replays, read_history-Replays}
use runner_controller_micros.Sse.Complete.{serve_complete}
use runner_controller_micros.Sse.Order.{serve-DoneLast, reads-serve}
use runner_controller_micros.Sse.Spin.{NoPayload, read_live_spins, read_history_spins}

abbrev first_line : Message
first_line = record { id = "1-0"; log_data = some "{\"line\": \"gen 1\"}" }

abbrev last_line : Message
last_line = record { id = "2-0"; log_data = some "{\"status\": \"EOF\"}" }

abbrev run_log : List Message
run_log = first_line ∷ last_line ∷ []

-- Redis as it answers about `run_log`.
abbrev read_log : Read → Answer
read_log r =
    if r.cursor == "0-0"
    then reply run_log
    else if r.cursor == "1-0"
    then reply (last_line ∷ [])
    else pending

abbrev finished : Env
finished = record {
  xread = λ n r. read_log r;
  write_fails = λ n. false;
  context_done = λ n. false;
  is_eof = λ p. p == "{\"status\": \"EOF\"}";
}

abbrev rest_of : List Message → List Message
rest_of [] = []
rest_of (m ∷ ms) = ms

abbrev first_of_log : List Message → Message
first_of_log [] = first_line
first_of_log (m ∷ ms) = m

abbrev Answers : String → List Message → Type 0
Answers cursor rest =
    read_log (record { stream = "run-1"; cursor = cursor; block = 0 }) ≡ reply (take 100 rest)

by_split :
    (before rest : List Message) → run_log ≡ before ++ rest → Answers (last_id "0-0" before) rest
by_split [] rest e = subst (Answers "0-0") e refl
by_split (b ∷ []) rest e =
    subst (λ (m : Message). Answers m.id rest) (ap first_of_log e)
      (subst (Answers "1-0") (ap rest_of e) refl)
by_split (b ∷ d ∷ []) rest e =
    subst (λ (m : Message). Answers m.id rest) (ap (λ l. first_of_log (rest_of l)) e)
      (subst (Answers "2-0") (ap (λ l. rest_of (rest_of l)) e) refl)
by_split (b ∷ d ∷ f ∷ before) rest e = cc (ap (λ l. rest_of (rest_of l)) e)

finished-Holds : Holds finished "run-1" run_log
finished-Holds = record { reads = λ n before rest e. by_split before rest e }

run_1-ne-empty : run_id "run-1" "" ≢ ""
unfolding run_id
run_1-ne-empty = ground (arith, eq_iff "run-1" "")

run_1-clean : contains_any (run_id "run-1" "") "\n\r*?" ≡ false
unfolding run_id contains_any
run_1-clean = refl

All-have : All HasPayload run_log
All-have = (("{\"line\": \"gen 1\"}", refl), (("{\"status\": \"EOF\"}", refl), tt))

run_1-Holds : Holds finished (run_id "run-1" "") run_log
unfolding run_id
run_1-Holds = finished-Holds

serve_complete_example :
    ((serve finished 3 "run-1" "").0 ≡ closed)
    × ((serve finished 3 "run-1" "").1.out
        ≡ retry 3
          ∷ (map payload (expected finished.is_eof run_log)
              ++ (done "{\"message\": \"Stream ended (found in history).\"}" ∷ [])))
serve_complete_example =
    serve_complete finished run_log 3 (λ n. refl) refl (omega arith) All-have "run-1" ""
      run_1-ne-empty run_1-clean run_1-Holds

read_history-Replays_example : Replays finished run_log [] (read_history finished "run-1" 3 start)
read_history-Replays_example =
    read_history-Replays finished "run-1" run_log (λ n. refl) finished-Holds 3 [] run_log start refl
      refl All-have (omega arith)

serve-DoneLast_example : DoneLast (serve finished 3 "run-1" "").1.out
serve-DoneLast_example = serve-DoneLast finished 3 "run-1" ""

one_read : (serve finished 3 "run-1" "").1.reads ≡ 1
unfolding serve run_id contains_any write flush then_flush after_headers open_stream read_history
    on_history process on_entry send finish after_send after_eof go_live
one_read = refl

reads-serve_example : (run_id "run-1" "" ≢ "") × (contains_any (run_id "run-1" "") "\n\r*?" ≡ false)
reads-serve_example = reads-serve finished 3 "run-1" "" (omega (arith, one_read))

-- An entry without the field `log_data` behind the last entry that was read.
abbrev malformed : Message
malformed = record { id = "3-0"; log_data = none }

abbrev stuck : Env
stuck = record finished { xread = λ n r. results ((malformed ∷ []) ∷ []) }

read_live_spins_example :
    read_live stuck "run-1" 1000 start ≡ (unfinished, record start { reads = 0 + 1000 })
read_live_spins_example =
    read_live_spins stuck "run-1" "0-0" malformed [] (refl, tt) (λ n. refl) (λ n. refl) 1000 start
      refl

abbrev copies : ℕ → List Message
copies zero = []
copies (suc n) = malformed ∷ copies n

All-copies : (n : ℕ) → All NoPayload (copies n)
All-copies zero = tt
All-copies (suc n) = (refl, All-copies n)

abbrev full : Env
full = record finished { xread = λ n r. results ((malformed ∷ copies 99) ∷ []) }

read_history_spins_example :
    read_history full "run-1" 1000 start ≡ (unfinished, record start { reads = 0 + 1000 })
read_history_spins_example =
    read_history_spins full "run-1" "0-0" malformed (copies 99) (refl, All-copies 99) (omega arith)
      (λ n. refl) 1000 start refl
