-- ===== src/Service/Calls/Panics.antt =====
-- The calls of Calls never panic.
use runner_controller_micros.Base.{
  ◌≡◌, inl, inr, String, Bool, true, false, Bool-cases, Option, none, some, not, if◌then◌else◌,
  ◌==◌,
}
use runner_controller_micros.Service.World.{
  Call, open_pool, make_bucket, bucket_exists, Reply, given, refused, Verdict, Env, Request, State,
}
use runner_controller_micros.Service.Exec.{Step, value, crash, pure, halt, obtained}
use runner_controller_micros.Service.Calls.{
  attempt, perform_anyway, verified, decoded, opened, auth, body, pool_conn, owned, ignore_error,
  made, ensure_bucket, check_owned, upload_file,
}
use runner_controller_micros.Service.Exec.Panics.{
  NoPanic, pure-NoPanic, halt-NoPanic, bind-NoPanic, obtain-NoPanic, on_error-NoPanic,
}

verified-NoPanic : (v : Verdict) → NoPanic (verified v)
verified-NoPanic v = go v.valid
  where
    go : (b : Bool) → NoPanic {E = String} (if not b then halt "unauthorized" else pure v)
    go true = pure-NoPanic v
    go false = halt-NoPanic "unauthorized"

decoded-NoPanic : {D : Type 0} (o : Option D) → NoPanic (decoded o)
decoded-NoPanic none = halt-NoPanic "invalid JSON body"
decoded-NoPanic (some d) = pure-NoPanic d

module _ (env : Env) where
  abbrev pub calm : (c : Call) → NoPanic (attempt env c)
  calm c = obtain-NoPanic c _

  pub auth-NoPanic : (token : Option String) → NoPanic (auth env token)
  unfolding auth
  auth-NoPanic none = halt-NoPanic "unauthorized"
  auth-NoPanic (some token) =
      bind-NoPanic _ _ (on_error-NoPanic _ _ (calm _))
        λ _. bind-NoPanic _ _ (on_error-NoPanic _ _ (obtain-NoPanic _ _)) verified-NoPanic

  pub body-NoPanic : (req : Request env.Value) → NoPanic (body env req)
  unfolding body
  body-NoPanic req = elim (Bool-cases (req.method == "POST")) [
    | inl e ↦ rw e (decoded-NoPanic req.body)
    | inr e ↦ rw e (halt-NoPanic _)
  ]

  pub pool_conn-NoPanic : NoPanic (pool_conn env)
  unfolding pool_conn obtained
  pool_conn-NoPanic = record { at = λ s t h. go s t s.pooled h }
    where
      fresh : (s t : State) (r : Reply Unit) → opened (obtained open_pool r s) ≡ (crash, t) → ⊥
      fresh s t (given x) k = cc
      fresh s t (refused m) k = cc

      go :
          (s t : State) (b : Bool)
          → (if b then (value tt, s) else opened (attempt env open_pool s)) ≡ (crash, t)
          → ⊥
      go s t true k = cc
      go s t false k = fresh s t _ k

  pub perform_anyway-NoPanic : (c : Call) → NoPanic (perform_anyway env c)
  unfolding obtained
  perform_anyway-NoPanic c = record { at = λ s t h. go s t _ h }
    where
      go :
          (s t : State) (r : Reply Unit)
          → ◌≡◌ {A = Step String Unit × State}
              (let (b, u) = obtained c r s in (ignore_error tt b, u))
              (crash, t)
          → ⊥
      go s t (given x) k = cc
      go s t (refused m) k = cc

  ensure_bucket-NoPanic : (bucket : String) → NoPanic (ensure_bucket env bucket)
  unfolding ensure_bucket check_owned obtained
  ensure_bucket-NoPanic bucket = record { at = λ s t h. go s t _ h }
    where
      check :
          (m : String) (t : State) (r : Reply Bool) (u : State)
          → ◌≡◌ {A = Step String Unit × State}
              (let (b, v) = obtained (bucket_exists bucket) r u in (owned m b, v))
              (crash, t)
          → ⊥
      check m t (given true) u k = cc
      check m t (given false) u k = cc
      check m t (refused n) u k = cc

      go :
          (s t : State) (r : Reply Unit)
          → made env bucket (obtained (make_bucket bucket) r s) ≡ (crash, t)
          → ⊥
      go s t (given x) k = cc
      go s t (refused m) k = check m t _ _ k

  pub upload_file-NoPanic : (i f e : String) → NoPanic (upload_file env i f e)
  unfolding upload_file
  upload_file-NoPanic i f e =
      bind-NoPanic _ _ (calm _)
        λ _. bind-NoPanic _ _ (ensure_bucket-NoPanic _) λ _. bind-NoPanic _ _ (calm _) λ _. calm _
