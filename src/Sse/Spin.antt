-- ===== src/Sse/Spin.antt =====
-- Entries without a payload, in the loops of modules/sse/server.go.
use native.Mathlib.Nat.{add-zero}
use runner_controller_micros.Base.{
  ap, ◌∙◌, ℕ, zero, suc, ◌+◌, ◌≤◌, ◌≡◌, refl, String, true, false, none, List, [], ◌∷◌, All, length,
  ltb, arith,
}
use runner_controller_micros.Sse.Stream.{
  Message, results, Env, Phase, history, live, Conn, Status, unfinished, block_timeout,
}
use runner_controller_micros.Sse.Handler.{
  process, read_history, read_live, on_history, on_live, after_history, after_live, on_entry, ask,
  asked,
}

abbrev pub NoPayload : Message → Type 0
NoPayload m = m.log_data ≡ none

-- The loop over a batch passes over them, and leaves the cursor where it was.
pub process_pass :
    (env : Env) (phase : Phase) (ms : List Message) (c : Conn)
    → All NoPayload ms
    → process env phase ms c ≡ (true, c)
unfolding process
process_pass env phase [] c a = refl
process_pass env phase (m ∷ ms) c (absent, a) =
    rw (absent, on_entry) (process_pass env phase ms c a)

not-below : (n : ℕ) → 100 ≤ n → ltb n 100 ≡ false
not-below n h = ground arith

module _ (env : Env) (stream cursor : String) (m : Message) (ms : List Message)
    (all : All NoPayload (m ∷ ms)) where
  abbrev Answers : ℕ → Type 0
  Answers block =
      (n : ℕ)
      → env.xread n (record { stream = stream; cursor = cursor; block = block })
        ≡ results ((m ∷ ms) ∷ [])

  ask_lem :
      (block : ℕ) (c : Conn)
      → Answers block
      → c.cursor ≡ cursor
      → ask env stream block c ≡ results ((m ∷ ms) ∷ [])
  ask_lem block c same here =
      ap (λ i. env.xread c.reads (record { stream = stream; cursor = i; block = block })) here
      ∙ same c.reads

  on_history_pass :
      (go : Conn → Status × Conn) (c : Conn)
      → 100 ≤ length (m ∷ ms)
      → on_history env go (results ((m ∷ ms) ∷ [])) c ≡ go c
  unfolding on_history
  on_history_pass go c full =
      ap (after_history env go (length (m ∷ ms))) (process_pass env history (m ∷ ms) c all)
      ∙ rw (not-below (length (m ∷ ms)) full, after_history)

  on_live_pass :
      (go : Conn → Status × Conn) (c : Conn) → on_live env go (results ((m ∷ ms) ∷ [])) c ≡ go c
  unfolding on_live
  on_live_pass go c = ap (after_live env go) (process_pass env live (m ∷ ms) c all)

  -- Whenever what follows the cursor is a full batch of entries without a payload, the first loop
  -- reads that batch again in every round that it is given, writes nothing and does not end.
  pub read_history_spins :
      100 ≤ length (m ∷ ms)
      → ((n : ℕ)
          → env.xread n (record { stream = stream; cursor = cursor; block = 0 })
            ≡ results ((m ∷ ms) ∷ []))
      → (fuel : ℕ) (c : Conn) → c.cursor ≡ cursor
      → read_history env stream fuel c ≡ (unfinished, record c { reads = c.reads + fuel })
  unfolding read_history
  read_history_spins full same zero c here = rw add-zero
  read_history_spins full same (suc f) c here = rw (ask_lem 0 c same here) (
      on_history_pass (read_history env stream f) (asked env stream c) full
      ∙ read_history_spins full same f (asked env stream c) here
      ∙ ap (λ n. (unfinished, record c { reads = n })) (omega arith))

  -- The second loop does the same with a batch of any size, for as long as the context is not
  -- done, although its reads are made to wait for new entries.
  pub read_live_spins :
      ((n : ℕ)
        → env.xread n (record { stream = stream; cursor = cursor; block = block_timeout })
          ≡ results ((m ∷ ms) ∷ []))
      → ((n : ℕ) → env.context_done n ≡ false)
      → (fuel : ℕ) (c : Conn) → c.cursor ≡ cursor
      → read_live env stream fuel c ≡ (unfinished, record c { reads = c.reads + fuel })
  unfolding read_live
  read_live_spins same going zero c here = rw add-zero
  read_live_spins same going (suc f) c here =
      rw (going c.reads, read_live)
        (rw (ask_lem block_timeout c same here) (
          on_live_pass (read_live env stream f) (asked env stream c)
          ∙ read_live_spins same going f (asked env stream c) here
          ∙ ap (λ n. (unfinished, record c { reads = n })) (omega arith)))
