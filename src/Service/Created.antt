-- ===== src/Service/Created.antt =====
-- What a request that is answered with 200 has done (controller/ea.go, controller/pso.go).
use runner_controller_micros.Base.{
  arith, ℕ, ◌≡◌, refl, sym, ◌∙◌, ap, ◌≢◌, String, ◌<>◌, ◌==◌, false, none, some, List, ◌∷◌, eq_refl,
}
use runner_controller_micros.Base.Text.Laws.{ne-eq}
use text.Mathlib.TextLemmas.{append_cancel_left, cons-append, head-eq_of_cons-eq}
use Prim.Native.Char.{code}
use mathlib.Core.Bool.{false≢true}
use runner_controller_micros.Service.World.{
  Fields, push, History, Data, given, Env, Request, Response, State, Kind,
}
use runner_controller_micros.Service.Exec.{value}
use runner_controller_micros.Service.Exec.Runs.{after_answer, value-injective, after_value}
use runner_controller_micros.Service.Calls.{queue}
use runner_controller_micros.Service.Effects.{World, apply, world}
use runner_controller_micros.Service.Stages.{lift-value}
use runner_controller_micros.Service.Queue.{enqueue-world}
use runner_controller_micros.Service.Progress.{
  Prepared, prepare-value, register_run-value, store-value, clear-value, registered, stored,
  cleared, object_name,
}
use runner_controller_micros.Service.Answers.{create-success}
use runner_controller_micros.Service.Create.{
  Submission, assign, code_path, input_path, row, prepare, submit, report, create,
}

names-ne : (i : String) → (object_name i "input" "json" == object_name i "code" "py") ≡ false
names-ne i =
    ne-eq
      λ e. false≢true (ap (λ x. x == "/code.py") (append_cancel_left i "/input.json" "/code.py" e))

paths-ne : (i : String) → code_path i ≢ input_path i
paths-ne i e = letters-ne (ap code (head-eq_of_cons-eq heads))
  where
    heads : String.◌∷◌ "c" ("ode/" <> (i <> ".py")) ≡ String.◌∷◌ "i" ("nput/" <> (i <> ".json"))
    heads = sym (cons-append "c" "ode/" _) ∙ e ∙ cons-append "i" "nput/" _

    letters-ne : ◌≢◌ {A = ℕ} 99 105
    letters-ne h = omega arith

-- What the lookups give after the stages of a creation.
pub final_program :
    (i text input : String) (w : World)
    → (cleared i (stored i text input w)).objects "code" (object_name i "code" "py") ≡ some text
final_program i text input w =
    rw (names-ne i, eq_refl (object_name i "code" "py"), eq_refl (code_path i)) refl

pub final_request :
    (i text input : String) (w : World)
    → (cleared i (stored i text input w)).objects "code" (object_name i "input" "json") ≡ some input
final_request i text input w =
    rw (eq_refl (object_name i "input" "json"), eq_refl (input_path i)) refl

no_file_left :
    (i text input : String) (w : World)
    → ((cleared i (stored i text input w)).files (code_path i) ≡ none)
      × ((cleared i (stored i text input w)).files (input_path i) ≡ none)
no_file_left i text input w = (
  rw (ne-eq (λ e. paths-ne i (sym e)), eq_refl (code_path i)) refl,
  rw (eq_refl (input_path i)) refl,
)

module _ (env : Env) (K : Kind env.Value) where
  -- The user is authenticated and the request accepted; there is one more run, with the user as its
  -- creator, and one more access, for the user; the object store has the program and the request;
  -- neither file is left; and there is one more message on the queue, for this run.
  pub record Created (req : Request env.Value) (s : State) (r : Response (Fields env.Value))
      (t : State) : Type 0 where
    pub submission : Submission env K
    pub prepared : Prepared env K req submission
    pub run_id : String
    pub input : String
    pub message : String
    pub before_run : History
    pub before_message : History
    pub new_run : env.new_run before_run (row env K submission.0 submission.3) ≡ given run_id
    pub encoded : env.encode submission.1 ≡ given input
    pub encoded_message :
        env.encode_message before_message
          (record { run_id = run_id; file_name = "code"; extension = "py" })
        ≡ given message
    pub runs : (world t.trace).runs ≡ row env K submission.0 submission.3 ∷ (world s.trace).runs
    pub accesses :
        (world t.trace).accesses ≡ (run_id, submission.0.id, "write") ∷ (world s.trace).accesses
    pub program :
        (world t.trace).objects "code" (object_name run_id "code" "py") ≡ some submission.2
    pub request : (world t.trace).objects "code" (object_name run_id "input" "json") ≡ some input
    pub no_program_file : (world t.trace).files (code_path run_id) ≡ none
    pub no_request_file : (world t.trace).files (input_path run_id) ≡ none
    pub enqueued : (world t.trace).queue ≡ (queue env, message) ∷ (world s.trace).queue
    pub answer :
        (m : List (String × env.Value)) × (submission.1 ≡ some m)
        × (r.content ≡ some (assign "runID" (env.text run_id) m))

  reported :
      (i : String) (d : Data env.Value) (s : State) (r : Response (Fields env.Value)) (t : State)
      → report env K i d s ≡ (value r, t)
      → (t ≡ s)
        × (m : List (String × env.Value)) × (d ≡ some m)
        × (r.content ≡ some (assign "runID" (env.text i) m))
  unfolding report
  reported i none s r t h = cc
  reported i (some m) s r t h =
      let (p, q) = value-injective h in (sym q, m, refl, ap (λ x. x.content) (sym p))

  carried_out :
      (req : Request env.Value) (s : State) (r : Response (Fields env.Value)) (t : State)
      (sub : Submission env K) (u : State)
      → prepare env K req s ≡ (value sub, u)
      → submit env K sub u ≡ (value r, t)
      → Created req s r t
  unfolding submit
  carried_out req s r t (user, content, text, q) u p h = after_value _ _ u h λ i s1 e1 k1.
      after_answer _ _ _ s1 k1 λ input s2 e2 k2. after_value _ _ s2 k2 λ _ s3 e3 k3.
        after_value _ _ s3 k3 λ _ s4 e4 k4. after_answer _ _ _ s4 k4 λ _ s5 e5 k5.
          let (prepared, w0) = prepare-value env K req s (user, content, text, q) u p in
          let (asked, new_run, w1) = register_run-value env K user q u i s1 e1 in
          let (encoded, w2) = lift-value (env.encode content) s1 input s2 e2 in
          let w3 = store-value env K i text input s2 _ s3 e3 in
          let w4 = clear-value env K i s3 _ s4 e4 in
          let (message, before_message, encoded_message, w5) =
            enqueue-world env i "code" "py" s4 _ s5 e5 in
          let (w6, m, is_m, content_m) = reported i content s5 r t k5 in
          let registered_world = registered (row env K user q) i user.id (world s.trace) in
          let final : world t.trace
              ≡ apply (push (queue env) message)
                  (cleared i (stored i text input registered_world)) =
            rw (w6, w5, w4, w3, w2, w1, w0) refl in
          record {
            submission = (user, content, text, q);
            prepared = prepared;
            run_id = i;
            input = input;
            message = message;
            before_run = asked;
            before_message = before_message;
            new_run = new_run;
            encoded = encoded;
            encoded_message = encoded_message;
            runs = ap (λ w. w.runs) final;
            accesses = ap (λ w. w.accesses) final;
            program =
                ap (λ w. w.objects "code" (object_name i "code" "py")) final
                ∙ final_program i text input registered_world;
            request =
                ap (λ w. w.objects "code" (object_name i "input" "json")) final
                ∙ final_request i text input registered_world;
            no_program_file =
                ap (λ w. w.files (code_path i)) final
                ∙ (no_file_left i text input registered_world).0;
            no_request_file =
                ap (λ w. w.files (input_path i)) final
                ∙ (no_file_left i text input registered_world).1;
            enqueued = ap (λ w. w.queue) final;
            answer = (m, is_m, content_m);
          }

  -- A creation that is answered with 200 comes from an authenticated POST whose request was decoded
  -- and accepted. It has inserted one run and one access for the user, stored the program and the
  -- request under the id of the run, left neither file, and put one message for the run on the
  -- queue. The answer is the request with the id of the run.
  pub create-Created :
      (req : Request env.Value) (s : State) (r : Response (Fields env.Value)) (t : State)
      → create env K req s ≡ (some r, t)
      → r.code ≡ 200
      → Created req s r t
  create-Created req s r t h ok =
      let (sub, u, p, q) = create-success env K req s r t h ok in carried_out req s r t sub u p q
