-- ===== src/Service/Panics.antt =====
-- Whether a handler that creates a run panics: its parts do not, and what is left is the report.
use runner_controller_micros.Base.{
  ◌≡◌, refl, sym, ap, ◌∙◌, ◌≢◌, ◌⊎◌, inl, inr, String, Option, none, some,
}
use runner_controller_micros.Base.Outcome.{ok, panic}
use runner_controller_micros.Service.World.{
  given, Verdict, Data, Env, Request, Response, State, Kind, Fields,
}
use runner_controller_micros.Service.Exec.{Step, value, stop, crash, ◌>>=◌}
use runner_controller_micros.Service.Progress.{prepare-value}
use runner_controller_micros.Service.Queue.{Unreachable, enqueue-panic}
use runner_controller_micros.Service.Replies.{answered_with}
use runner_controller_micros.Service.Create.{
  Submission, prepare, register_run, store, clear, report, submit, create,
}
use runner_controller_micros.Service.Exec.Panics.{
  NoPanic, pure-NoPanic, bind-panic, bind-NoPanic, obtain-NoPanic, lift-NoPanic,
  lift_outcome-NoPanic, on_error-NoPanic, on_error-panic,
}
use runner_controller_micros.Service.Calls.Panics.{
  calm, auth-NoPanic, body-NoPanic, pool_conn-NoPanic, perform_anyway-NoPanic, upload_file-NoPanic,
}

some-ne-none : {A : Type 0} {a : A} → some a ≡ none → ⊥
some-ne-none h = cc

module _ (env : Env) where
  -- A request is answered, or RabbitMQ could not be reached.
  pub IsAnswered : Option (Response (Fields env.Value)) × State → Type 0
  IsAnswered (answer, t) = (answer ≢ none) ⊎ Unreachable env t.trace

module _ (env : Env) (K : Kind env.Value) where
  abbrev pub Sound : Type 0
  Sound = (q : K.Req) → (K.code q).0 ≢ panic

  pub prepare-NoPanic : Sound → (req : Request env.Value) → NoPanic (prepare env K req)
  unfolding prepare
  prepare-NoPanic sound req = bind-NoPanic _ _ (on_error-NoPanic _ _ (auth-NoPanic env _)) λ _.
      bind-NoPanic _ _ (on_error-NoPanic _ _ (body-NoPanic env _)) λ _.
        bind-NoPanic _ _ (on_error-NoPanic _ _ (lift-NoPanic _)) λ q.
          bind-NoPanic _ _
            (on_error-NoPanic _ _
              (bind-NoPanic _ _ (lift_outcome-NoPanic (K.code q).0 (sound q)) λ _. pure-NoPanic _))
            λ _. pure-NoPanic _

  register_run-NoPanic : (u : Verdict) (q : K.Req) → NoPanic (register_run env K u q)
  unfolding register_run
  register_run-NoPanic u q = bind-NoPanic _ _ (on_error-NoPanic _ _ (pool_conn-NoPanic env)) λ _.
      bind-NoPanic _ _ (on_error-NoPanic _ _ (obtain-NoPanic _ _))
        λ _. bind-NoPanic _ _ (on_error-NoPanic _ _ (calm env _)) λ _. pure-NoPanic _

  store-NoPanic : (i text input : String) → NoPanic (store env K i text input)
  unfolding store
  store-NoPanic i text input =
      bind-NoPanic _ _ (on_error-NoPanic _ _ (perform_anyway-NoPanic env _)) λ _.
        bind-NoPanic _ _ (on_error-NoPanic _ _ (calm env _)) λ _.
          bind-NoPanic _ _ (on_error-NoPanic _ _ (upload_file-NoPanic env _ _ _)) λ _.
            bind-NoPanic _ _ (on_error-NoPanic _ _ (perform_anyway-NoPanic env _)) λ _.
              bind-NoPanic _ _ (on_error-NoPanic _ _ (calm env _))
                λ _. on_error-NoPanic _ _ (upload_file-NoPanic env _ _ _)

  clear-NoPanic : (i : String) → NoPanic (clear env K i)
  unfolding clear
  clear-NoPanic i =
      bind-NoPanic _ _ (on_error-NoPanic _ _ (calm env _)) λ _. on_error-NoPanic _ _ (calm env _)

  report-panic :
      (i : String) (d : Data env.Value) (s t : State) → report env K i d s ≡ (crash, t) → d ≡ none
  unfolding report
  report-panic i none s t h = refl
  report-panic i (some m) s t h = cc

  -- Past the program, a creation panics only for a request whose body is `null`, or if RabbitMQ
  -- cannot be reached.
  submit-panic :
      (sub : Submission env K) (s t : State)
      → submit env K sub s ≡ (crash, t)
      → Unreachable env t.trace ⊎ (sub.1 ≡ none)
  unfolding submit
  submit-panic (user, content, text, q) s t h = elim (bind-panic _ _ h) [
    | inl k ↦ absurd ((register_run-NoPanic user q).at s t k)
    | inr (i, s1, _, k1) ↦ elim (bind-panic _ _ k1) [
      | inl k ↦ absurd ((on_error-NoPanic _ _ (lift-NoPanic _)).at s1 t k)
      | inr (input, s2, _, k2) ↦ elim (bind-panic _ _ k2) [
        | inl k ↦ absurd ((store-NoPanic i text input).at s2 t k)
        | inr (_, s3, _, k3) ↦ elim (bind-panic _ _ k3) [
          | inl k ↦ absurd ((clear-NoPanic i).at s3 t k)
          | inr (_, s4, _, k4) ↦ elim (bind-panic _ _ k4) [
            | inl k ↦ inl (enqueue-panic env i "code" "py" s4 t (on_error-panic _ _ k))
            | inr (_, s5, _, k5) ↦ inr (report-panic i content s5 t k5)
          ]
        ]
      ]
    ]
  ]

  -- Where the program is never a panic, and a nil map gives no program, a creation answers.
  pub create_answers :
      Sound
      → ((q : K.Req) (text : String) (q' : K.Req)
          → K.from_json none ≡ given q
          → K.code q ≡ (ok text, q')
          → ⊥)
      → (req : Request env.Value) (s : State) → IsAnswered env (create env K req s)
  unfolding create IsAnswered
  create_answers sound refuses req s = go ((prepare env K req >>= submit env K) s) refl
    where
      panicked :
          (t : State)
          → (prepare env K req >>= submit env K) s ≡ (crash, t)
          → Unreachable env t.trace
      panicked t h = elim (bind-panic (prepare env K req) (submit env K) h) [
        | inl k ↦ absurd ((prepare-NoPanic sound req).at s t k)
        | inr (sub, u, e, k) ↦ elim (submit-panic sub u t k) [
          | inl lost ↦ lost
          | inr null ↦
              let p = (prepare-value env K req s sub u e).0 in
              absurd (refuses p.parsed sub.2 sub.3 (ap K.from_json (sym null) ∙ p.from_json) p.code)
        ]
      ]

      go :
          (p : Step (Response (Fields env.Value)) (Response (Fields env.Value)) × State)
          → (prepare env K req >>= submit env K) s ≡ p
          → IsAnswered env (answered_with p.0, p.1)
      go (value x, u) e = inl (λ h. some-ne-none h)
      go (stop x, u) e = inl (λ h. some-ne-none h)
      go (crash, u) e = inr (panicked u e)
