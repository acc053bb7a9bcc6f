-- ===== src/Runs/Effects.antt =====
-- What the handlers of controller/run.go and controller/test.go do to the other programs, however they
-- end: a sharing grants accesses, the others do nothing.
use runner_controller_micros.Base.{
  refl, sym, subst, String, ◌==◌, Bool-cases, inl, inr, List, [], ◌∷◌,
}
use runner_controller_micros.Service.World.{Data, Reply, Env, Request, insert_access}
use runner_controller_micros.Service.Exec.{Exec}
use runner_controller_micros.Service.Effects.{World, apply, world}
use runner_controller_micros.Service.Backing.{Meaning, Backed}
use runner_controller_micros.Service.Kept.{
  Keeps, Anywhere, bind-Keeps, on_error-Keeps, Silent-Keeps,
}
use runner_controller_micros.Service.Kept.Parts.{Silent-then}
use runner_controller_micros.Service.Exec.Silent.{
  Silent, pure-Silent, bind-Silent, on_error-Silent, lift-Silent, obtain-Silent,
}
use runner_controller_micros.Service.Calls.Silent.{auth-Silent, body-Silent, pool_conn-Silent}
use runner_controller_micros.Runs.Queries.{RunDataReq, ShareRunReq, load_runs, user_runs, user_run}
use runner_controller_micros.Runs.Handlers.{get_run, get_runs, share, echo, test}
use runner_controller_micros.Runs.Granted.{granted, Grants}
use runner_controller_micros.Runs.Sharing.{share_run-Grants}

module _ (env : Env) where
  load_runs-Silent : (user : String) (ids : List String) → Silent (load_runs env user ids)
  unfolding load_runs
  load_runs-Silent user [] = pure-Silent []
  load_runs-Silent user (id ∷ ids) =
      bind-Silent _ _ (on_error-Silent _ _ (obtain-Silent _ _ (λ w. refl)))
        λ rows. bind-Silent _ _ (on_error-Silent _ _ (lift-Silent _)) λ entries. pure-Silent _

  user_runs-Silent : (user : String) → Silent (user_runs env user)
  unfolding user_runs
  user_runs-Silent user = bind-Silent _ _ (on_error-Silent _ _ (pool_conn-Silent env)) λ _.
      bind-Silent _ _ (on_error-Silent _ _ (obtain-Silent _ _ (λ w. refl)))
        λ rows. bind-Silent _ _ (on_error-Silent _ _ (lift-Silent _)) (load_runs-Silent user)

  user_run-Silent : (user : String) (r : RunDataReq) → Silent (user_run env user r)
  unfolding user_run
  user_run-Silent user r = bind-Silent _ _ (on_error-Silent _ _ (pool_conn-Silent env)) λ _.
      bind-Silent _ _ (on_error-Silent _ _ (obtain-Silent _ _ (λ w. refl))) λ _.
        bind-Silent _ _ (on_error-Silent _ _ (obtain-Silent _ _ (λ w. refl))) λ row. pure-Silent _

  pub get_run-Silent :
      (from_json : Data env.Value → Reply RunDataReq) (req : Request env.Value)
      → Silent (get_run env from_json req)
  unfolding get_run
  get_run-Silent from_json req = bind-Silent _ _ (on_error-Silent _ _ (auth-Silent env _)) λ user.
      bind-Silent _ _ (on_error-Silent _ _ (body-Silent env _)) λ content.
        bind-Silent _ _ (on_error-Silent _ _ (lift-Silent _))
          λ run. bind-Silent _ _ (on_error-Silent _ _ (user_run-Silent _ _)) λ fields. pure-Silent _

  pub get_runs-Silent : (req : Request env.Value) → Silent (get_runs env req)
  unfolding get_runs
  get_runs-Silent req =
      bind-Silent _ _ (on_error-Silent _ _ (auth-Silent env _))
        λ user. bind-Silent _ _ (on_error-Silent _ _ (user_runs-Silent _)) λ runs. pure-Silent _

  pub test-Silent : (req : Request env.Value) → Silent (test env req)
  unfolding test echo
  test-Silent req = elim (Bool-cases (req.method == "GET")) [
    | inl e ↦ rw e (pure-Silent _)
    | inr e ↦ elim (Bool-cases (req.method == "POST")) [
      | inl k ↦
          rw (e, k)
            (bind-Silent _ _ (on_error-Silent _ _ (body-Silent env _)) λ content. pure-Silent _)
      | inr k ↦ rw (e, k) (pure-Silent _)
    ]
  ]

-- A sharing keeps the messages backed.
granted-Backed :
    (env : Env) (M : Meaning env) (id : String) (users : List String) (w : World)
    → Backed env M w
    → Backed env M (granted id users w)
unfolding granted
granted-Backed env M id [] w h = h
granted-Backed env M id (user ∷ users) w h =
    granted-Backed env M id users (apply (insert_access id user "read") w) h

Grants-Keeps :
    (env : Env) (M : Meaning env) {E A : Type 0} (id : String) (m : Exec E A)
    → Grants id m
    → Keeps env M Anywhere m
Grants-Keeps env M id m gm = record {
  at = λ s p h.
      let (users, e) = gm.at s in
      subst (Backed env M) (sym e) (granted-Backed env M id users (world s.trace) h);
}

pub share-Keeps :
    (env : Env) (M : Meaning env) (from_json : Data env.Value → Reply ShareRunReq)
    (req : Request env.Value)
    → Keeps env M Anywhere (share env from_json req)
unfolding share
share-Keeps env M from_json req =
    Silent-then env M _ _ (on_error-Silent _ _ (auth-Silent env _)) λ user.
      Silent-then env M _ _ (on_error-Silent _ _ (body-Silent env _)) λ content.
        Silent-then env M _ _ (on_error-Silent _ _ (lift-Silent _)) λ request.
          bind-Keeps env M (λ _. Anywhere) _ _
            (on_error-Keeps env M _ _
              (Grants-Keeps env M request.run_id _ (share_run-Grants env request)))
            (λ s a t p e. tt) λ _. Silent-Keeps env M _ (pure-Silent _)
