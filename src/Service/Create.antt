-- ===== src/Service/Create.antt =====
-- The handler that creates a run, as controller/ea.go, controller/pso.go, controller/gp.go and
-- controller/ml.go have it; they differ in the algorithm and in the columns of the run.
use runner_controller_micros.Base.{
  String, ◌<>◌, ◌==◌, Option, none, some, List, [], ◌∷◌, if◌then◌else◌,
}
use runner_controller_micros.Base.Decimal.{fmt_d}
use runner_controller_micros.Base.Outcome.{Outcome}
use runner_controller_micros.Service.World.{
  Fields, insert_run, insert_access, make_dir, write_file, remove_file, Row, Verdict, Data, Env,
  Request, Response, State, Kind,
}
use runner_controller_micros.Service.Exec.{
  value, crash, Exec, pure, ◌>>=◌, ◌>>◌, lift, lift_outcome, obtain,
}
use runner_controller_micros.Service.Replies.{or_reply, or_apologise, answered_with}
use runner_controller_micros.Service.Calls.{
  attempt, perform_anyway, auth, body, pool_conn, upload_file, enqueue,
}

-- `m[key] = v` for a map that is not nil.
abbrev pub assign : {V : Type 0} → String → V → List (String × V) → List (String × V)
assign k v [] = (k, v) ∷ []
assign k v ((k', v') ∷ rest) =
    let others = assign k v rest in if k' == k then (k, v) ∷ rest else (k', v') ∷ others

abbrev pub code_path : String → String
code_path run_id = "code/" <> (run_id <> ".py")

abbrev pub input_path : String → String
input_path run_id = "input/" <> (run_id <> ".json")

module _ (env : Env) (K : Kind env.Value) where
  abbrev pub Handler : Type 0 → Type 0
  Handler A = Exec (Response (Fields env.Value)) A

  abbrev pub Submission : Type 0
  Submission = Verdict × Data env.Value × String × K.Req

  abbrev pub coded : Outcome String × K.Req → Exec String (String × K.Req)
  coded (r, request) = do text ← lift_outcome r; pure (text, request)

  -- Up to the program: the user, the body, the request and its code.
  unfoldable pub prepare : Request env.Value → Handler Submission
  prepare req = do
    user ← or_reply 401 (auth env req.token)
    content ← or_reply 400 (body env req)
    request ← or_reply 400 (lift (K.from_json content))
    (text, request') ← or_reply 400 (coded (K.code request))
    pure (user, content, text, request')

  abbrev pub row : Verdict → K.Req → Row
  row user request = record {
    name = fmt_d (K.generations request) <> ("-" <> fmt_d (K.population_size request));
    description = K.description request;
    run_type = K.run_type;
    command = K.command;
    created_by = user.id;
  }

  -- The rows of the run and of its owner's access.
  unfoldable pub register_run : Verdict → K.Req → Handler String
  register_run user request = do
    or_apologise (pool_conn env)
    run_id ←
        or_apologise
          (obtain (insert_run (row user request)) (λ h. env.new_run h (row user request)))
    or_apologise (attempt env (insert_access run_id user.id "write"))
    pure run_id

  -- The program and the request go to files, and from there to the object store.
  unfoldable pub store : String → String → String → Handler Unit
  store run_id text input = do
    or_apologise (perform_anyway env (make_dir "code"))
    or_apologise (attempt env (write_file (code_path run_id) text))
    or_reply 500 (upload_file env run_id "code" "py")
    or_apologise (perform_anyway env (make_dir "input"))
    or_apologise (attempt env (write_file (input_path run_id) input))
    or_reply 500 (upload_file env run_id "input" "json")

  unfoldable pub clear : String → Handler Unit
  clear run_id = do
    or_apologise (attempt env (remove_file (code_path run_id)))
    or_apologise (attempt env (remove_file (input_path run_id)))

  -- An assignment to a nil map panics.
  unfoldable pub report : String → Data env.Value → Handler (Response (Fields env.Value))
  report run_id none s = (crash, s)
  report run_id (some m) s = (
    value (record {
      code = 200;
      message = "It works! 👍🏻";
      content = some (assign "runID" (env.text run_id) m);
    }),
    s,
  )

  -- From the submission on.
  unfoldable pub submit : Submission → Handler (Response (Fields env.Value))
  submit (user, content, text, request) = do
    run_id ← register_run user request
    input ← or_apologise (lift (env.encode content))
    store run_id text input
    clear run_id
    or_reply 500 (enqueue env run_id "code" "py")
    report run_id content

  -- The response, or `none` if the handler panicked, and the state that the request leaves.
  unfoldable pub create : Request env.Value → State → Option (Response (Fields env.Value)) × State
  unfolding prepare submit
  create req s = let (r, s') = (prepare req >>= submit) s in (answered_with r, s')
