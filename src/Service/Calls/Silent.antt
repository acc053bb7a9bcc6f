-- ===== src/Service/Calls/Silent.antt =====
-- The calls of Calls that have no effect on the other programs.
use runner_controller_micros.Base.{
  ◌∷◌, ◌≡◌, refl, String, ◌==◌, Bool, Bool-cases, not, Option, none, some, inl, inr, true, false,
  ◌∷◌, if◌then◌else◌,
}
use runner_controller_micros.Service.World.{
  Call, open_pool, make_bucket, bucket_exists, failed, Reply, given, refused, Verdict, Env, Request,
  State,
}
use runner_controller_micros.Service.Exec.{noted, value, pure, halt, obtained}
use runner_controller_micros.Service.Calls.{
  verified, decoded, auth, body, attempt, perform_anyway, opened, pool_conn, made, ensure_bucket,
  check_owned,
}
use runner_controller_micros.Service.Effects.{World, apply, world}
use runner_controller_micros.Service.Exec.Silent.{
  Silent, pure-Silent, halt-Silent, bind-Silent, on_error-Silent, obtain-Silent,
}

verified-Silent : (v : Verdict) → Silent {E = String} (verified v)
verified-Silent v = go v.valid
  where
    go : (b : Bool) → Silent {E = String} (if not b then halt "unauthorized" else pure v)
    go true = pure-Silent v
    go false = halt-Silent "unauthorized"

decoded-Silent : {D : Type 0} (o : Option D) → Silent {E = String} (decoded o)
decoded-Silent none = halt-Silent "invalid JSON body"
decoded-Silent (some d) = pure-Silent d

module _ (env : Env) where
  pub pool_conn-Silent : Silent (pool_conn env)
  unfolding pool_conn obtained
  pool_conn-Silent = record { at = λ s. go s s.pooled }
    where
      fresh :
          (s : State) (r : Reply Unit)
          → world (opened (obtained open_pool r s)).1.trace ≡ world s.trace
      fresh s (given a) = refl
      fresh s (refused m) = refl

      go :
          (s : State) (b : Bool)
          → world (if b then (value tt, s) else opened (attempt env open_pool s)).1.trace
            ≡ world s.trace
      go s true = refl
      go s false = fresh s _

  pub auth-Silent : (token : Option String) → Silent (auth env token)
  unfolding auth
  auth-Silent none = halt-Silent "unauthorized"
  auth-Silent (some token) =
      bind-Silent _ _ (on_error-Silent _ _ (obtain-Silent _ _ (λ w. refl)))
        λ _. bind-Silent _ _ (on_error-Silent _ _ (obtain-Silent _ _ (λ w. refl))) verified-Silent

  pub body-Silent : (req : Request env.Value) → Silent (body env req)
  unfolding body
  body-Silent req = elim (Bool-cases (req.method == "POST")) [
    | inl e ↦ rw e (decoded-Silent req.body)
    | inr e ↦ rw e (halt-Silent _)
  ]

  pub attempt-Silent : (c : Call) → ((w : World) → apply c w ≡ w) → Silent (attempt env c)
  attempt-Silent c same = obtain-Silent c _ same

  pub perform_anyway-Silent :
      (c : Call) → ((w : World) → apply c w ≡ w) → Silent (perform_anyway env c)
  perform_anyway-Silent c same = record { at = λ s. (attempt-Silent c same).at s }

  pub ensure_bucket-Silent : (bucket : String) → Silent (ensure_bucket env bucket)
  unfolding ensure_bucket check_owned obtained
  ensure_bucket-Silent bucket = record { at = λ s. go s _ }
    where
      check :
          (r : Reply Bool) (u : State)
          → world (obtained (bucket_exists bucket) r u).1.trace ≡ world u.trace
      check (given b) u = refl
      check (refused n) u = refl

      go :
          (s : State) (r : Reply Unit)
          → world (made env bucket (obtained (make_bucket bucket) r s)).1.trace ≡ world s.trace
      go s (given x) = refl
      go s (refused m) =
          check (env.has_bucket (failed (make_bucket bucket) ∷ s.trace) bucket)
            (noted (failed (make_bucket bucket)) s)
