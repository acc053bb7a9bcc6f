-- ===== src/Service/Answers.antt =====
-- The answers of a creation that did not succeed, and what is left behind.
use runner_controller_micros.Base.{
  arith, ◌≡◌, refl, sym, ◌∙◌, ap, ◌≢◌, ◌⊎◌, inl, inr, String, Option, none, some,
}
use runner_controller_micros.Service.World.{Fields, Data, Env, Request, Response, State, Kind}
use runner_controller_micros.Service.Exec.{Step, value, stop, crash, ◌>>=◌}
use runner_controller_micros.Service.Exec.Runs.{
  bind-value, bind-stop, value-injective, stop-ne-value,
}
use runner_controller_micros.Service.Exec.Keeps.{
  GoesOn, Stops, bind-GoesOn, bind-Stops, bind-Stops_last, lift-GoesOn, lift-Stops, on_error-GoesOn,
}
use runner_controller_micros.Service.Stops.{effects, IsRefusal, prepare-Stops}
use runner_controller_micros.Service.Failures.{
  queued, IsFailure, fails, attempt-Stops, attempt-GoesOn, perform_anyway-Stops,
  perform_anyway-GoesOn, upload_file-Stops, upload_file-GoesOn, register_run-Stops,
  register_run-GoesOn,
}
use runner_controller_micros.Service.Queue.{enqueue-Stops}
use runner_controller_micros.Service.Progress.{prepare-value}
use runner_controller_micros.Service.Replies.{answered_with}
use runner_controller_micros.Service.Create.{
  Submission, prepare, store, clear, report, submit, create,
}

module _ (env : Env) (K : Kind env.Value) where
  store-Stops : (i text input : String) → Stops queued IsFailure (store env K i text input)
  unfolding store
  store-Stops i text input =
      bind-Stops _ _ (fails env K _ _ (λ _. refl) (perform_anyway-Stops env _))
        (on_error-GoesOn _ _ (perform_anyway-GoesOn env _ (λ w. refl)))
        λ _.
          bind-Stops _ _ (fails env K _ _ (λ _. refl) (attempt-Stops env _))
            (on_error-GoesOn _ _ (attempt-GoesOn env _ (λ s. refl)))
            λ _.
              bind-Stops _ _ (fails env K _ _ (λ _. refl) (upload_file-Stops env _ _ _))
                (on_error-GoesOn _ _ (upload_file-GoesOn env _ _ _))
                λ _.
                  bind-Stops _ _ (fails env K _ _ (λ _. refl) (perform_anyway-Stops env _))
                    (on_error-GoesOn _ _ (perform_anyway-GoesOn env _ (λ w. refl)))
                    λ _.
                      bind-Stops _ _ (fails env K _ _ (λ _. refl) (attempt-Stops env _))
                        (on_error-GoesOn _ _ (attempt-GoesOn env _ (λ s. refl)))
                        λ _. fails env K _ _ (λ _. refl) (upload_file-Stops env _ _ _)

  store-GoesOn : (i text input : String) → GoesOn queued (store env K i text input)
  unfolding store
  store-GoesOn i text input =
      bind-GoesOn _ _ (on_error-GoesOn _ _ (perform_anyway-GoesOn env _ (λ w. refl))) λ _.
        bind-GoesOn _ _ (on_error-GoesOn _ _ (attempt-GoesOn env _ (λ s. refl))) λ _.
          bind-GoesOn _ _ (on_error-GoesOn _ _ (upload_file-GoesOn env _ _ _)) λ _.
            bind-GoesOn _ _ (on_error-GoesOn _ _ (perform_anyway-GoesOn env _ (λ w. refl))) λ _.
              bind-GoesOn _ _ (on_error-GoesOn _ _ (attempt-GoesOn env _ (λ s. refl)))
                λ _. on_error-GoesOn _ _ (upload_file-GoesOn env _ _ _)

  clear-Stops : (i : String) → Stops queued IsFailure (clear env K i)
  unfolding clear
  clear-Stops i =
      bind-Stops _ _ (fails env K _ _ (λ _. refl) (attempt-Stops env _))
        (on_error-GoesOn _ _ (attempt-GoesOn env _ (λ s. refl)))
        λ _. fails env K _ _ (λ _. refl) (attempt-Stops env _)

  clear-GoesOn : (i : String) → GoesOn queued (clear env K i)
  unfolding clear
  clear-GoesOn i =
      bind-GoesOn _ _ (on_error-GoesOn _ _ (attempt-GoesOn env _ (λ s. refl)))
        λ _. on_error-GoesOn _ _ (attempt-GoesOn env _ (λ s. refl))

  report-no_stop :
      (i : String) (d : Data env.Value) (s : State) (e : Response (Fields env.Value)) (t : State)
      → report env K i d s ≡ (stop e, t)
      → ⊥
  unfolding report
  report-no_stop i none s e t h = cc
  report-no_stop i (some m) s e t h = stop-ne-value (sym h)

  pub submit-Stops : (sub : Submission env K) → Stops queued IsFailure (submit env K sub)
  unfolding submit
  submit-Stops (user, content, text, q) =
      bind-Stops _ _ (register_run-Stops env K user q) (register_run-GoesOn env K user q) λ i.
        bind-Stops _ _ (fails env K _ _ (λ _. refl) (lift-Stops _))
          (on_error-GoesOn _ _ (lift-GoesOn _))
          λ input. bind-Stops _ _ (store-Stops i text input) (store-GoesOn i text input) λ _.
            bind-Stops _ _ (clear-Stops i) (clear-GoesOn i) λ _.
              bind-Stops_last _ _ (fails env K _ _ (λ _. refl) (enqueue-Stops env i "code" "py"))
                λ _. report-no_stop i content

  -- A creation that goes on ends with the status 200.
  report-code :
      (i : String) (d : Data env.Value) (s : State) (r : Response (Fields env.Value)) (t : State)
      → report env K i d s ≡ (value r, t)
      → r.code ≡ 200
  unfolding report
  report-code i none s r t h = cc
  report-code i (some m) s r t h = ap (λ x. x.code) (sym (value-injective h).0)

  submit-code :
      (sub : Submission env K) (s : State) (r : Response (Fields env.Value)) (t : State)
      → submit env K sub s ≡ (value r, t)
      → r.code ≡ 200
  unfolding submit
  submit-code (user, content, text, q) s r t h =
      let (i, s1, _, k1) = bind-value _ _ h in
      let (_, s2, _, k2) = bind-value _ _ k1 in
      let (_, s3, _, k3) = bind-value _ _ k2 in
      let (_, s4, _, k4) = bind-value _ _ k3 in
      let (_, s5, _, k5) = bind-value _ _ k4 in report-code i content s5 r t k5

  prepare-queued :
      (req : Request env.Value) (s : State) (sub : Submission env K) (t : State)
      → prepare env K req s ≡ (value sub, t)
      → queued t ≡ queued s
  prepare-queued req s sub t h = ap (λ w. w.queue) (prepare-value env K req s sub t h).1

  -- A response comes from a refusal, from a failure or from a success.
  pub Answers : Request env.Value → State → Response (Fields env.Value) → State → Type 0
  Answers req s r t =
      (IsRefusal r × (effects t ≡ effects s))
      ⊎ (IsFailure r × (queued t ≡ queued s))
      ⊎ ((r.code ≡ 200)
          × (sub : Submission env K) × (u : State) × (prepare env K req s ≡ (value sub, u))
          × (submit env K sub u ≡ (value r, t)))

  answers :
      (req : Request env.Value) (s : State) (r : Response (Fields env.Value)) (t : State)
      → create env K req s ≡ (some r, t)
      → Answers req s r t
  unfolding create Answers
  answers req s r t h = go ((prepare env K req >>= submit env K) s) refl h
    where
      answered-value :
          (x : Response (Fields env.Value)) (u : State)
          → ◌≡◌ {A = Option (Response (Fields env.Value)) × State} (some x, u) (some r, t)
          → (prepare env K req >>= submit env K) s ≡ (value x, u)
          → (prepare env K req >>= submit env K) s ≡ (value r, t)
      answered-value x u k e = cc

      answered-stop :
          (x : Response (Fields env.Value)) (u : State)
          → ◌≡◌ {A = Option (Response (Fields env.Value)) × State} (some x, u) (some r, t)
          → (prepare env K req >>= submit env K) s ≡ (stop x, u)
          → (prepare env K req >>= submit env K) s ≡ (stop r, t)
      answered-stop x u k e = cc

      go :
          (p : Step (Response (Fields env.Value)) (Response (Fields env.Value)) × State)
          → (prepare env K req >>= submit env K) s ≡ p
          → ◌≡◌ {A = Option (Response (Fields env.Value)) × State}
              (answered_with p.0, p.1)
              (some r, t)
          → Answers req s r t
      go (value x, u) e k =
          let (sub, v, p, q) = bind-value _ _ (answered-value x u k e) in
          inr (inr (submit-code sub v r t q, sub, v, p, q))
      go (stop x, u) e k = elim (bind-stop _ _ (answered-stop x u k e)) [
        | inl p ↦ inl ((prepare-Stops env K req).at s r t p)
        | inr (sub, v, p, q) ↦
            let (five, same) = (submit-Stops sub).at v r t q in
            inr (inl (five, same ∙ prepare-queued req s sub v p))
      ]
      go (crash, u) e k = cc

  -- A creation that is not answered with 200 has put nothing on the queue. If the answer is not 500
  -- either, it has done nothing at all: no row, no file, no object.
  pub create-refused :
      (req : Request env.Value) (s : State) (r : Response (Fields env.Value)) (t : State)
      → create env K req s ≡ (some r, t)
      → r.code ≢ 200
      → (queued t ≡ queued s) × (r.code ≢ 500 → (effects t ≡ effects s))
  unfolding Answers
  create-refused req s r t h not_200 = elim (answers req s r t h) [
    | inl (_, same) ↦ (ap (λ w. w.queue) same, λ _. same)
    | inr (inl (five, same)) ↦ (same, λ not_500. absurd (not_500 five))
    | inr (inr (two, _, _, _, _)) ↦ absurd (not_200 two)
  ]

  -- A success comes from a submission that was carried out.
  pub create-success :
      (req : Request env.Value) (s : State) (r : Response (Fields env.Value)) (t : State)
      → create env K req s ≡ (some r, t)
      → r.code ≡ 200
      → (sub : Submission env K) × (u : State) × (prepare env K req s ≡ (value sub, u))
        × (submit env K sub u ≡ (value r, t))
  unfolding Answers
  create-success req s r t h two = elim (answers req s r t h) [
    | inl (inl four, _) ↦ absurd (omega arith)
    | inl (inr four, _) ↦ absurd (omega arith)
    | inr (inl (five, _)) ↦ absurd (omega arith)
    | inr (inr (_, sub, u, p, q)) ↦ (sub, u, p, q)
  ]
