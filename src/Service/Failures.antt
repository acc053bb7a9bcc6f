-- ===== src/Service/Failures.antt =====
-- What has been done when a creation stops after its program was made: nothing is on the queue, and
-- the answer has the status 500.
use runner_controller_micros.Base.{
  ◌≡◌, refl, sym, ap, String, Bool, true, false, List, if◌then◌else◌,
}
use runner_controller_micros.Service.World.{
  Fields, Call, open_pool, make_bucket, bucket_exists, succeeded, Reply, given, refused, Verdict,
  Env, Response, State, Kind,
}
use runner_controller_micros.Service.Exec.{Step, value, stop, Exec, noted, obtained, on_error}
use runner_controller_micros.Service.Exec.Runs.{stop-injective, stop-ne-value}
use runner_controller_micros.Service.Exec.Keeps.{
  Any, GoesOn, Stops, bind-GoesOn, bind-Stops, pure-GoesOn, pure-Stops, obtain-GoesOn, obtain-Stops,
  on_error-GoesOn, on_error-Stops,
}
use runner_controller_micros.Service.Calls.{
  attempt, perform_anyway, ignore_error, opened, pool_conn, owned, made, ensure_bucket, check_owned,
  upload_file,
}
use runner_controller_micros.Service.Effects.{World, apply, world}
use runner_controller_micros.Service.Stages.{
  pool_conn-world, ensure_bucket-world, perform_anyway-world,
}
use runner_controller_micros.Service.Create.{register_run}

abbrev pub queued : State → List (String × String)
queued s = (world s.trace).queue

abbrev pub IsFailure : {V : Type 0} → Response V → Type 0
IsFailure r = r.code ≡ 500

module _ (env : Env) where
  pool_conn-GoesOn : GoesOn queued (pool_conn env)
  pool_conn-GoesOn = record { at = λ s a t h. ap (λ w. w.queue) (pool_conn-world env s a t h) }

  pool_conn-Stops : Stops queued Any (pool_conn env)
  unfolding pool_conn obtained
  pool_conn-Stops = record { at = λ s e t h. go s e t s.pooled h }
    where
      fresh :
          (s : State) (e : String) (t : State) (r : Reply Unit)
          → opened (obtained open_pool r s) ≡ (stop e, t)
          → Any e × (queued t ≡ queued s)
      fresh s e t (given x) k = absurd (stop-ne-value (sym k))
      fresh s e t (refused m) k = (tt, ap queued (sym (stop-injective k).1))

      go :
          (s : State) (e : String) (t : State) (b : Bool)
          → (if b then (value tt, s) else opened (attempt env open_pool s)) ≡ (stop e, t)
          → Any e × (queued t ≡ queued s)
      go s e t true k = absurd (stop-ne-value (sym k))
      go s e t false k = fresh s e t _ k

  pub perform_anyway-GoesOn :
      (c : Call) → ((w : World) → apply c w ≡ w) → GoesOn queued (perform_anyway env c)
  perform_anyway-GoesOn c same = record {
    at = λ s a t h. ap (λ w. w.queue) (perform_anyway-world env c same s a t h);
  }

  pub perform_anyway-Stops : (c : Call) → Stops queued Any (perform_anyway env c)
  unfolding obtained
  perform_anyway-Stops c = record { at = λ s e t h. go s e t _ h }
    where
      go :
          (s : State) (e : String) (t : State) (r : Reply Unit)
          → ◌≡◌ {A = Step String Unit × State}
              (let (b, u) = obtained c r s in (ignore_error tt b, u))
              (stop e, t)
          → Any e × (queued t ≡ queued s)
      go s e t (given x) k = absurd (stop-ne-value (sym k))
      go s e t (refused m) k = absurd (stop-ne-value (sym k))

  ensure_bucket-GoesOn : (bucket : String) → GoesOn queued (ensure_bucket env bucket)
  ensure_bucket-GoesOn bucket = record {
    at = λ s a t h. ap (λ w. w.queue) (ensure_bucket-world env bucket s a t h);
  }

  ensure_bucket-Stops : (bucket : String) → Stops queued Any (ensure_bucket env bucket)
  unfolding ensure_bucket check_owned obtained
  ensure_bucket-Stops bucket = record { at = λ s e t h. go s e t _ h }
    where
      check :
          (m : String) (e : String) (t : State) (r : Reply Bool) (u : State)
          → ◌≡◌ {A = Step String Unit × State}
              (let (b, v) = obtained (bucket_exists bucket) r u in (owned m b, v))
              (stop e, t)
          → Any e × (queued t ≡ queued u)
      check m e t (given true) u k = absurd (stop-ne-value (sym k))
      check m e t (given false) u k = (tt, ap queued (sym (stop-injective k).1))
      check m e t (refused n) u k = (tt, ap queued (sym (stop-injective k).1))

      go :
          (s : State) (e : String) (t : State) (r : Reply Unit)
          → made env bucket (obtained (make_bucket bucket) r s) ≡ (stop e, t)
          → Any e × (queued t ≡ queued s)
      go s e t (given x) k = absurd (stop-ne-value (sym k))
      go s e t (refused m) k = check m e t _ _ k

  pub attempt-GoesOn :
      (c : Call)
      → ((s : State) → queued (noted (succeeded c) s) ≡ queued s)
      → GoesOn queued (attempt env c)
  attempt-GoesOn c same = obtain-GoesOn c _ same

  pub attempt-Stops : (c : Call) → Stops queued Any (attempt env c)
  attempt-Stops c = obtain-Stops c _ (λ s. refl)

  pub upload_file-Stops : (i f e : String) → Stops queued Any (upload_file env i f e)
  unfolding upload_file
  upload_file-Stops i f e = bind-Stops _ _ (attempt-Stops _) (attempt-GoesOn _ (λ s. refl)) λ _.
      bind-Stops _ _ (ensure_bucket-Stops _) (ensure_bucket-GoesOn _)
        λ _. bind-Stops _ _ (attempt-Stops _) (attempt-GoesOn _ (λ s. refl)) λ _. attempt-Stops _

  pub upload_file-GoesOn : (i f e : String) → GoesOn queued (upload_file env i f e)
  unfolding upload_file
  upload_file-GoesOn i f e = bind-GoesOn _ _ (attempt-GoesOn _ (λ s. refl)) λ _.
      bind-GoesOn _ _ (ensure_bucket-GoesOn _)
        λ _. bind-GoesOn _ _ (attempt-GoesOn _ (λ s. refl)) λ _. attempt-GoesOn _ (λ s. refl)

  module _ (K : Kind env.Value) where
    -- Any error from here on is answered with 500.
    pub fails :
        {A : Type 0} (g : String → Response (Fields env.Value)) (m : Exec String A)
        → ((e : String) → (g e).code ≡ 500)
        → Stops queued Any m
        → Stops queued IsFailure (on_error g m)
    fails g m all sm = on_error-Stops g m all sm

    pub register_run-Stops :
        (user : Verdict) (q : K.Req) → Stops queued IsFailure (register_run env K user q)
    unfolding register_run
    register_run-Stops user q =
        bind-Stops _ _ (fails _ _ (λ _. refl) pool_conn-Stops)
          (on_error-GoesOn _ _ pool_conn-GoesOn)
          λ _.
            bind-Stops _ _ (fails _ _ (λ _. refl) (obtain-Stops _ _ (λ s. refl)))
              (on_error-GoesOn _ _ (obtain-GoesOn _ _ (λ s. refl)))
              λ i.
                bind-Stops _ _ (fails _ _ (λ _. refl) (attempt-Stops _))
                  (on_error-GoesOn _ _ (attempt-GoesOn _ (λ s. refl))) λ _. pure-Stops i

    pub register_run-GoesOn :
        (user : Verdict) (q : K.Req) → GoesOn queued (register_run env K user q)
    unfolding register_run
    register_run-GoesOn user q = bind-GoesOn _ _ (on_error-GoesOn _ _ pool_conn-GoesOn) λ _.
        bind-GoesOn _ _ (on_error-GoesOn _ _ (obtain-GoesOn _ _ (λ s. refl))) λ i.
          bind-GoesOn _ _ (on_error-GoesOn _ _ (attempt-GoesOn _ (λ s. refl))) λ _. pure-GoesOn i
