-- ===== src/Runs/Answered.antt =====
-- The answers of the handlers of controller/run.go: the status 200 is that of a handler that has run
-- to its end.
use runner_controller_micros.Base.{ℕ, ◌≡◌, refl, ◌≢◌, String, Option, some, arith}
use runner_controller_micros.Service.World.{Reply, Data, Env, Request, Response, State}
use runner_controller_micros.Service.Exec.{Step, value, stop, crash, Exec}
use runner_controller_micros.Service.Exec.Keeps.{
  Any, GoesOn, Stops, bind-Stops, pure-Stops, on_error-Stops,
}
use runner_controller_micros.Service.Replies.{or_reply, answered_with}
use runner_controller_micros.Runs.Queries.{ShareRunReq, RunDataReq}
use runner_controller_micros.Runs.Handlers.{Handler, handled, get_run, get_runs, share}

abbrev pub IsError : {C : Type 0} → Response C → Type 0
IsError r = r.code ≢ 200

abbrev pub nothing : State → Unit {0}
nothing s = tt

any-GoesOn : {E A : Type 0} (m : Exec E A) → GoesOn nothing m
any-GoesOn m = record { at = λ s a t h. refl }

or_reply-Stops :
    {C A : Type 0} (n : ℕ) (m : Exec String A)
    → n ≢ 200
    → Stops nothing (IsError {C = C}) (or_reply n m)
or_reply-Stops n m other =
    on_error-Stops {Q = Any} _ m (λ e. other) (record { at = λ s e t h. (tt, refl) })

pub handled-value :
    {C : Type 0} (m : Handler C) (s : State) (r : Response C) (t : State)
    → Stops nothing IsError m
    → handled m s ≡ (some r, t)
    → r.code ≡ 200
    → m s ≡ (value r, t)
handled-value {C} m s r t sm h ok = go (m s) refl h
  where
    go :
        (p : Step (Response C) (Response C) × State)
        → m s ≡ p
        → ◌≡◌ {A = Option (Response C) × State} (answered_with p.0, p.1) (some r, t)
        → m s ≡ (value r, t)
    go (value x, u) e k = cc
    go (stop x, u) e k = absurd ((sm.at s r t (same x u e k)).0 ok)
      where
        same :
            (x : Response C) (u : State)
            → m s ≡ (stop x, u)
            → ◌≡◌ {A = Option (Response C) × State} (some x, u) (some r, t)
            → m s ≡ (stop r, t)
        same x u e k = cc
    go (crash, u) e k = cc

module _ (env : Env) where
  pub get_run-Stops :
      (from_json : Data env.Value → Reply RunDataReq) (req : Request env.Value)
      → Stops nothing IsError (get_run env from_json req)
  unfolding get_run
  get_run-Stops from_json req =
      bind-Stops _ _ (or_reply-Stops 401 _ (λ e. omega arith)) (any-GoesOn _) λ _.
        bind-Stops _ _ (or_reply-Stops 400 _ (λ e. omega arith)) (any-GoesOn _) λ _.
          bind-Stops _ _ (or_reply-Stops 400 _ (λ e. omega arith)) (any-GoesOn _) λ _.
            bind-Stops _ _ (or_reply-Stops 500 _ (λ e. omega arith)) (any-GoesOn _)
              λ _. pure-Stops _

  pub get_runs-Stops : (req : Request env.Value) → Stops nothing IsError (get_runs env req)
  unfolding get_runs
  get_runs-Stops req =
      bind-Stops _ _ (or_reply-Stops 401 _ (λ e. omega arith)) (any-GoesOn _) λ _.
        bind-Stops _ _ (or_reply-Stops 500 _ (λ e. omega arith)) (any-GoesOn _) λ _. pure-Stops _

  pub share-Stops :
      (from_json : Data env.Value → Reply ShareRunReq) (req : Request env.Value)
      → Stops nothing IsError (share env from_json req)
  unfolding share
  share-Stops from_json req =
      bind-Stops _ _ (or_reply-Stops 401 _ (λ e. omega arith)) (any-GoesOn _) λ _.
        bind-Stops _ _ (or_reply-Stops 400 _ (λ e. omega arith)) (any-GoesOn _) λ _.
          bind-Stops _ _ (or_reply-Stops 400 _ (λ e. omega arith)) (any-GoesOn _) λ _.
            bind-Stops _ _ (or_reply-Stops 400 _ (λ e. omega arith)) (any-GoesOn _)
              λ _. pure-Stops _
