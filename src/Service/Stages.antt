-- ===== src/Service/Stages.antt =====
-- What the functions of Service/Calls do when they return.
use runner_controller_micros.Base.{
  Bool-cases, eq_iff, ◌≡◌, refl, sym, ap, ◌∙◌, inl, inr, String, ◌<>◌, ◌==◌, Bool, true, false, not,
  Option, none, some, if◌then◌else◌,
}
use runner_controller_micros.Service.World.{
  Call, dial_auth, authenticate, open_pool, minio_client, make_bucket, bucket_exists, set_policy,
  put_object, succeeded, History, Reply, given, refused, Verdict, Data, Env, Request, State,
}
use runner_controller_micros.Service.Exec.{Step, value, pure, halt, noted, lift, obtained}
use runner_controller_micros.Service.Exec.Runs.{
  bind-value, stop-ne-value, obtain-value, on_error-value, value-injective,
}
use runner_controller_micros.Service.Calls.{
  answered, attempt, opened, made, owned, verified, auth, body, decoded, pool_conn, policy,
  ensure_bucket, check_owned, upload_file, perform_anyway, ignore_error,
}
use runner_controller_micros.Service.Effects.{World, apply, world}

-- A user is returned only if the verdict is valid.
verified-value :
    (v : Verdict) (s : State) (u : Verdict) (t : State)
    → verified v s ≡ (value u, t)
    → (v.valid ≡ true) × (u ≡ v) × (t ≡ s)
verified-value v s u t h = go v.valid refl h
  where
    go :
        (b : Bool)
        → v.valid ≡ b
        → ◌≡◌ {A = Step String Verdict × State}
            ((if not b then halt "unauthorized" else pure v) s)
            (value u, t)
        → (v.valid ≡ true) × (u ≡ v) × (t ≡ s)
    go true e k = let (p, q) = value-injective k in (e, sym p, sym q)
    go false e k = absurd (stop-ne-value k)

decoded-value :
    {D : Type 0} (o : Option D) (s : State) (d : D) (t : State)
    → decoded o s ≡ (value d, t)
    → (o ≡ some d) × (t ≡ s)
decoded-value none s d t h = absurd (stop-ne-value h)
decoded-value (some x) s d t h = let (p, q) = value-injective h in (ap some p, sym q)

pub lift-value :
    {A : Type 0} (r : Reply A) (s : State) (a : A) (t : State)
    → lift r s ≡ (value a, t)
    → (r ≡ given a) × (t ≡ s)
unfolding lift
lift-value (given x) s a t h = let (p, q) = value-injective h in (ap given p, sym q)
lift-value (refused m) s a t h = absurd (stop-ne-value h)

module _ (env : Env) where
  pub attempt-value :
      (c : Call) {s : State} {a : Unit} {t : State}
      → attempt env c s ≡ (value a, t)
      → t ≡ noted (succeeded c) s
  attempt-value c h = (obtain-value c (λ x. answered (env.perform x c)) h).1

  -- A user comes from a cookie that the auth service finds valid.
  pub auth-value :
      (cookie : Option String) (s : State) (v : Verdict) (t : State)
      → auth env cookie s ≡ (value v, t)
      → (token : String) × (cookie ≡ some token)
        × (h : History) × (env.verdict h token ≡ given v)
        × (v.valid ≡ true)
        × (world t.trace ≡ world s.trace)
  unfolding auth
  auth-value none s v t h = absurd (stop-ne-value h)
  auth-value (some token) s v t h =
      let (_, s1, e1, k1) = bind-value _ _ h in
      let (u, s2, e2, k2) = bind-value _ _ k1 in
      let (valid, same, still) = verified-value u s2 v t k2 in
      let dialled = attempt-value dial_auth (on_error-value _ _ e1) in
      let (answer, asked) =
        obtain-value (authenticate token) (λ h. env.verdict h token) (on_error-value _ _ e2) in
      (token, refl, s1.trace, rw same answer, rw same valid, rw (still, asked, dialled) refl)

  pub body-value :
      (req : Request env.Value) (s : State) (d : Data env.Value) (t : State)
      → body env req s ≡ (value d, t)
      → (req.method ≡ "POST") × (req.body ≡ some d) × (t ≡ s)
  unfolding body
  body-value req s d t h = elim (Bool-cases (req.method == "POST")) [
    | inl e ↦
        let (p, q) = decoded-value req.body s d t (rw e at h) in
        ((eq_iff req.method "POST").0 e, p, q)
    | inr e ↦ absurd (stop-ne-value (rw e at h))
  ]

  pub pool_conn-world :
      (s : State) (a : Unit) (t : State)
      → pool_conn env s ≡ (value a, t)
      → world t.trace ≡ world s.trace
  unfolding pool_conn obtained
  pool_conn-world s a t h = go s.pooled h
    where
      fresh :
          (r : Reply Unit)
          → opened (obtained open_pool r s) ≡ (value a, t)
          → world t.trace ≡ world s.trace
      fresh (given x) k = ap (λ u. world u.trace) (sym (value-injective k).1)
      fresh (refused m) k = absurd (stop-ne-value k)

      go :
          (b : Bool)
          → (if b then (value tt, s) else opened (attempt env open_pool s)) ≡ (value a, t)
          → world t.trace ≡ world s.trace
      go true k = ap (λ u. world u.trace) (sym (value-injective k).1)
      go false k = fresh _ k

  pub ensure_bucket-world :
      (bucket : String) (s : State) (a : Unit) (t : State)
      → ensure_bucket env bucket s ≡ (value a, t)
      → world t.trace ≡ world s.trace
  unfolding ensure_bucket check_owned obtained
  ensure_bucket-world bucket s a t h = go (answered (env.perform s.trace (make_bucket bucket))) h
    where
      check :
          (m : String) (r : Reply Bool) (u : State)
          → ◌≡◌ {A = Step String Unit × State}
              (let (b, v) = obtained (bucket_exists bucket) r u in (owned m b, v))
              (value a, t)
          → world t.trace ≡ world u.trace
      check m (given true) u k = ap (λ u. world u.trace) (sym (value-injective k).1)
      check m (given false) u k = absurd (stop-ne-value k)
      check m (refused n) u k = absurd (stop-ne-value k)

      go :
          (r : Reply Unit)
          → made env bucket (obtained (make_bucket bucket) r s) ≡ (value a, t)
          → world t.trace ≡ world s.trace
      go (given x) k = ap (λ u. world u.trace) (sym (value-injective k).1)
      go (refused m) k = check m _ _ k

  pub upload_file-world :
      (run_id file_name extension : String) (s : State) (a : Unit) (t : State)
      → upload_file env run_id file_name extension s ≡ (value a, t)
      → world t.trace
        ≡ apply
            (put_object "code"
              (run_id <> ("/" <> (file_name <> ("." <> extension))))
              (file_name <> ("/" <> (run_id <> ("." <> extension)))))
            (world s.trace)
  unfolding upload_file
  upload_file-world run_id file_name extension s a t h =
      let (_, s1, e1, k1) = bind-value _ _ h in
      let (_, s2, e2, k2) = bind-value _ _ k1 in
      let (_, s3, e3, k3) = bind-value _ _ k2 in
      let q1 = attempt-value minio_client e1 in
      let q2 = ensure_bucket-world "code" s1 _ s2 e2 in
      let q3 = attempt-value (set_policy "code" (policy "code")) e3 in
      let q4 = attempt-value _ k3 in rw (q4, q3, q2, q1) refl

  -- A call that leaves the others as they are, also when its error is not looked at.
  pub perform_anyway-world :
      (c : Call)
      → ((w : World) → apply c w ≡ w)
      → (s : State) (a : Unit) (t : State) → perform_anyway env c s ≡ (value a, t)
      → world t.trace ≡ world s.trace
  unfolding obtained
  perform_anyway-world c same s a t h = go (answered (env.perform s.trace c)) h
    where
      go :
          (r : Reply Unit)
          → ◌≡◌ {A = Step String Unit × State}
              (let (b, u) = obtained c r s in (ignore_error tt b, u))
              (value a, t)
          → world t.trace ≡ world s.trace
      go (given x) k = ap (λ u. world u.trace) (sym (value-injective k).1) ∙ same (world s.trace)
      go (refused m) k = ap (λ u. world u.trace) (sym (value-injective k).1)
