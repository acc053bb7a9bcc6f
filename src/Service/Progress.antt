-- ===== src/Service/Progress.antt =====
-- What the stages of a creation have done when they return (controller/ea.go, controller/pso.go).
use runner_controller_micros.Base.{subst, ◌≡◌, refl, sym, ap, String, ◌<>◌, true, some}
use runner_controller_micros.Base.Outcome.{Outcome, ok, err, panic}
use text.Mathlib.TextLemmas.{append_assoc}
use runner_controller_micros.Service.World.{
  insert_run, insert_access, make_dir, write_file, remove_file, put_object, History, Row, given,
  Verdict, Env, Request, State, Kind,
}
use runner_controller_micros.Service.Exec.{value, ◌>>=◌, lift_outcome}
use runner_controller_micros.Service.Exec.Runs.{
  after_answer, obtain-value, on_error-value, value-injective, stop-ne-value,
}
use runner_controller_micros.Service.Effects.{World, apply, world}
use runner_controller_micros.Service.Stages.{
  attempt-value, auth-value, body-value, lift-value, pool_conn-world, upload_file-world,
  perform_anyway-world,
}
use runner_controller_micros.Service.Create.{
  Submission, code_path, input_path, coded, row, prepare, register_run, store, clear,
}

-- The file that `UploadFile` reads is the one that the handler wrote.
pub upload_path :
    (directory run_id extension : String)
    → directory <> ("/" <> (run_id <> ("." <> extension)))
      ≡ (directory <> "/") <> (run_id <> ("." <> extension))
upload_path directory run_id extension = sym (append_assoc directory "/" _)

-- What the stages of a creation do to the other programs.
abbrev pub registered : Row → String → String → World → World
registered row run_id user_id w =
    apply (insert_access run_id user_id "write") (apply (insert_run row) w)

abbrev pub object_name : String → String → String → String
object_name run_id file_name extension = run_id <> ("/" <> (file_name <> ("." <> extension)))

abbrev pub saved : String → String → String → String → String → World → World
saved run_id file_name extension path content w =
    apply (put_object "code" (object_name run_id file_name extension) path)
      (apply (write_file path content) w)

abbrev pub stored : String → String → String → World → World
stored run_id text input w =
    saved run_id "input" "json" (input_path run_id) input
      (saved run_id "code" "py" (code_path run_id) text w)

abbrev pub cleared : String → World → World
cleared run_id w =
    apply (remove_file (input_path run_id)) (apply (remove_file (code_path run_id)) w)

module _ (env : Env) (K : Kind env.Value) where
  coded-value :
      (p : Outcome String × K.Req) (s : State) (text : String) (request : K.Req) (t : State)
      → coded env K p s ≡ (value (text, request), t)
      → (p ≡ (ok text, request)) × (t ≡ s)
  unfolding lift_outcome ◌>>=◌
  coded-value (ok x, q) s text request t h =
      let (e, k) = value-injective h in (ap (λ z. (ok z.0, z.1)) e, sym k)
  coded-value (err m, q) s text request t h = absurd (stop-ne-value h)
  coded-value (panic, q) s text request t h = cc

  -- What the first part found out.
  pub record Prepared (req : Request env.Value) (sub : Submission env K) : Type 0 where
    pub token : String
    pub asked : History
    pub parsed : K.Req
    pub cookie : req.token ≡ some token
    pub verdict : env.verdict asked token ≡ given sub.0
    pub valid : sub.0.valid ≡ true
    pub posted : req.method ≡ "POST"
    pub decoded : req.body ≡ some sub.1
    pub from_json : K.from_json sub.1 ≡ given parsed
    pub code : K.code parsed ≡ (ok sub.2, sub.3)

  pub prepare-value :
      (req : Request env.Value) (s : State) (sub : Submission env K) (t : State)
      → prepare env K req s ≡ (value sub, t)
      → Prepared req sub × (world t.trace ≡ world s.trace)
  unfolding prepare
  prepare-value req s sub t h = after_answer _ _ _ s h λ u s1 e1 k1.
      after_answer _ _ _ s1 k1 λ d s2 e2 k2. after_answer _ _ _ s2 k2 λ q s3 e3 k3.
        after_answer _ _ _ s3 k3 λ r s4 e4 k4.
          let (token, cookie, asked, verdict, valid, w1) = auth-value env req.token s u s1 e1 in
          let (posted, decoded, w2) = body-value env req s1 d s2 e2 in
          let (from_json, w3) = lift-value (K.from_json d) s2 q s3 e3 in
          let (code, w4) = coded-value (K.code q) s3 r.0 r.1 s4 e4 in
          let (p, w5) = value-injective k4 in
          (
            subst (Prepared req) p (record {
              token = token;
              asked = asked;
              parsed = q;
              cookie = cookie;
              verdict = verdict;
              valid = valid;
              posted = posted;
              decoded = decoded;
              from_json = from_json;
              code = code;
            }),
            rw (sym w5, w4, w3, w2, w1) refl,
          )

  pub register_run-value :
      (user : Verdict) (request : K.Req) (s : State) (run_id : String) (t : State)
      → register_run env K user request s ≡ (value run_id, t)
      → (h : History) × (env.new_run h (row env K user request) ≡ given run_id)
        × (world t.trace ≡ registered (row env K user request) run_id user.id (world s.trace))
  unfolding register_run
  register_run-value user request s run_id t h = after_answer _ _ _ s h λ _ s1 e1 k1.
      after_answer _ _ _ s1 k1 λ x s2 e2 k2. after_answer _ _ _ s2 k2 λ _ s3 e3 k3.
        let w1 = pool_conn-world env s _ s1 e1 in
        let (new, w2) = obtain-value _ (λ h. env.new_run h (row env K user request)) e2 in
        let w3 = attempt-value env _ e3 in
        let (p, w4) = value-injective k3 in
        (
          s1.trace,
          rw (sym p) new,
          rw (sym w4, w3, w2, sym p) (ap (registered (row env K user request) x user.id) w1),
        )

  pub store-value :
      (run_id text input : String) (s : State) (a : Unit) (t : State)
      → store env K run_id text input s ≡ (value a, t)
      → world t.trace ≡ stored run_id text input (world s.trace)
  unfolding store
  store-value run_id text input s a t h = after_answer _ _ _ s h λ _ s1 e1 k1.
      after_answer _ _ _ s1 k1 λ _ s2 e2 k2. after_answer _ _ _ s2 k2 λ _ s3 e3 k3.
        after_answer _ _ _ s3 k3 λ _ s4 e4 k4. after_answer _ _ _ s4 k4 λ _ s5 e5 k5.
          let w1 = perform_anyway-world env (make_dir "code") (λ w. refl) s _ s1 e1 in
          let w2 = attempt-value env _ e2 in
          let w3 = upload_file-world env run_id "code" "py" s2 _ s3 e3 in
          let w4 = perform_anyway-world env (make_dir "input") (λ w. refl) s3 _ s4 e4 in
          let w5 = attempt-value env _ e5 in
          let w6 = upload_file-world env run_id "input" "json" s5 _ t (on_error-value _ _ k5) in
          rw (w6, upload_path "input" run_id "json", w5, w4, w3, upload_path "code" run_id "py", w2)
            (ap (stored run_id text input) w1)

  pub clear-value :
      (run_id : String) (s : State) (a : Unit) (t : State)
      → clear env K run_id s ≡ (value a, t)
      → world t.trace ≡ cleared run_id (world s.trace)
  unfolding clear
  clear-value run_id s a t h = after_answer _ _ _ s h λ _ s1 e1 k1.
      let w1 = attempt-value env _ e1 in
      let w2 = attempt-value env _ (on_error-value _ _ k1) in rw (w2, w1) refl
