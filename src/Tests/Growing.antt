-- ===== src/Tests/Growing.antt =====
-- A run that goes on writing its log while it is read: the second entry comes after the first read.
use mathlib.Core.List.{append-nil}
use runner_controller_micros.Base.{
  ℕ, zero, suc, ◌+◌, ◌≡◌, refl, sym, ap, ◌∙◌, String, ◌==◌, false, some, List, [], ◌∷◌, ◌++◌, ◌⊎◌,
  if◌then◌else◌, arith,
}
use runner_controller_micros.Base.Text.{contains_any}
use runner_controller_micros.Sse.Stream.{
  Message, Answer, results, nil_reply, Env, error_reply, retry, payload, done,
}
use runner_controller_micros.Sse.Handler.{
  first_messages, write, flush, then_flush, after_headers, open_stream, on_history, on_batch,
  after_history, process, on_entry, send, finish, after_send, after_eof, go_live, run_id, serve,
  read_live, read_history, on_live, after_live,
}
use runner_controller_micros.Sse.Held.{last_id, reply}
use runner_controller_micros.Sse.Log.{Follows, Streams}
use runner_controller_micros.Sse.Following.{serve-Streams}

abbrev first_line : Message
first_line = record { id = "1-0"; log_data = some "{\"line\": \"gen 1\"}" }

abbrev last_line : Message
last_line = record { id = "2-0"; log_data = some "{\"status\": \"EOF\"}" }

abbrev log : ℕ → List Message
log zero = first_line ∷ []
log (suc n) = first_line ∷ last_line ∷ []

abbrev answer : ℕ → String → Answer
answer zero id = if id == "0-0" then reply (first_line ∷ []) else nil_reply
answer (suc n) id =
    if id == "0-0"
    then reply (first_line ∷ last_line ∷ [])
    else if id == "1-0"
    then reply (last_line ∷ [])
    else nil_reply

abbrev growing : Env
growing = record {
  xread = λ n r. answer n r.cursor;
  write_fails = λ n. false;
  context_done = λ n. false;
  is_eof = λ p. p == "{\"status\": \"EOF\"}";
}

add_one : (n : ℕ) → n + 1 ≡ suc n
add_one n = omega arith

grows : (n : ℕ) → (extra : List Message) × (log (n + 1) ≡ log n ++ extra)
grows zero = (last_line ∷ [], refl)
grows (suc n) = ([], ap log (add_one (suc n)))

-- What an answer with these entries tells of them.
given_front :
    (rest front : List Message) (rs : List (List Message))
    → front ≡ rest
    → results (front ∷ []) ≡ results rs
    → (more : List Message) × (rest ≡ first_messages rs ++ more)
given_front rest front rs e h =
    ([], sym e ∙ ap first_messages lists ∙ sym (append-nil (first_messages rs)))
  where
    lists : front ∷ [] ≡ rs
    lists = cc

nothing : {P : Type 0} (rs : List (List Message)) → nil_reply ≡ results rs → P
nothing rs h = cc

head_id : {m x : Message} {l r : List Message} → m ∷ l ≡ x ∷ r → m.id ≡ x.id
head_id e = ap (λ m. m.id) (heads e)
  where
    heads : {m x : Message} {l r : List Message} → m ∷ l ≡ x ∷ r → m ≡ x
    heads e = cc

tail : {m x : Message} {l r : List Message} → m ∷ l ≡ x ∷ r → l ≡ r
tail e = cc

reads :
    (n : ℕ) (before rest : List Message) (rs : List (List Message))
    → log n ≡ before ++ rest
    → answer n (last_id "0-0" before) ≡ results rs
    → (more : List Message) × (rest ≡ first_messages rs ++ more)
reads zero [] rest rs e h = given_front rest _ rs e h
reads zero (x ∷ []) rest rs e h = nothing rs (ap (answer zero) (head_id e) ∙ h)
reads zero (x ∷ y ∷ before) rest rs e h = cc
reads (suc n) [] rest rs e h = given_front rest _ rs e h
reads (suc n) (x ∷ []) rest rs e h =
    given_front rest _ rs (tail e) (ap (answer (suc n)) (head_id e) ∙ h)
reads (suc n) (x ∷ y ∷ []) rest rs e h = nothing rs (ap (answer (suc n)) (head_id (tail e)) ∙ h)
reads (suc n) (x ∷ y ∷ z ∷ before) rest rs e h = cc

growing-Follows : Follows growing "run-1" log
growing-Follows = record {
  grows = grows;
  reads = λ n block before rest rs e h. reads n before rest rs e h;
}

growing_out :
    (serve growing 5 "run-1" "").1.out
    ≡ retry 3
      ∷ payload "{\"line\": \"gen 1\"}"
      ∷ payload "{\"status\": \"EOF\"}"
      ∷ done "{\"message\": \"Stream ended.\"}"
      ∷ []
unfolding serve run_id contains_any open_stream write flush then_flush after_headers read_history
    on_history on_batch after_history process on_entry send after_send after_eof go_live read_live
    on_live after_live finish
growing_out = refl

serve-Streams_example :
    ((code : ℕ) × (m : String) × ((serve growing 5 "run-1" "").1.out ≡ error_reply code m ∷ []))
    ⊎ Streams growing (log (serve growing 5 "run-1" "").1.reads) (serve growing 5 "run-1" "").1.out
unfolding run_id
serve-Streams_example = serve-Streams growing log 5 "run-1" "" growing-Follows
