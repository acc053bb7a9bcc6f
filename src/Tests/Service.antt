-- ===== src/Tests/Service.antt =====
-- Requests that create a run.
use runner_controller_micros.Base.{
  ℕ, ◌≡◌, refl, ◌≢◌, String, ◌<>◌, true, false, Option, none, some, length, [], ◌∷◌, arith,
}
use runner_controller_micros.Base.Text.{contains, to_lower, Includes}
use runner_controller_micros.Pso.Config.{Pso, validate}
use runner_controller_micros.Pso.Program as Pso_program
use runner_controller_micros.Service.World.{
  Call, dial_queue, RunRow, Fields, Reply, given, Verdict, Data, Env, Request, Response, State,
  Kind,
}
use runner_controller_micros.Service.Create.{register_run, store, clear, report, create}
use runner_controller_micros.Service.Kinds.{pso_kind, create_pso, create_ea, create_gp}
use runner_controller_micros.Service.Created.{Created, create-Created}
use runner_controller_micros.Service.Answers.{create-refused}
use runner_controller_micros.Service.Stops.{effects}
use runner_controller_micros.Service.Failures.{queued}
use runner_controller_micros.Service.Effects.{world}
use runner_controller_micros.Service.Progress.{object_name}
use runner_controller_micros.Service.Algorithms.{
  create_pso-IsSound, create_ea-evaluates, create_gp-known,
}
use runner_controller_micros.Python.{algorithm_names, validate_algorithm_name}
use runner_controller_micros.Ea.Config as Ea_config
use runner_controller_micros.Ea.Result.{qualified}
use runner_controller_micros.Ea.Parts.{eval_function, register_individual}
use runner_controller_micros.Ea.Program as Ea_program
use runner_controller_micros.Pso.Accept.{IsSound}
use runner_controller_micros.Gp.Config as Gp_config
use runner_controller_micros.Gp.Parts.{arg_entries}
use runner_controller_micros.Gp.Program as Gp_program
use runner_controller_micros.Gp.Accept.{Order}
use runner_controller_micros.Tests.Gp.{regression}
use runner_controller_micros.Service.Exec.{
  ◌>>=◌, on_error, obtained, lift, lift_outcome, or_nil, deferred,
}
use runner_controller_micros.Service.Calls.{
  auth, body, pool_conn, upload_file, ensure_bucket, enqueue, publish,
}
use runner_controller_micros.Tests.Sample.{sample, sample-IsLawful}
use runner_controller_micros.Tests.Pso.{swarm}
use runner_controller_micros.Tests.Ea.{one_max}

abbrev pub alice : Verdict
alice = record {
  valid = true;
  id = "u1";
  user_name = "alice";
  full_name = "Alice";
  email = "alice@example.com";
  role = "user";
}

abbrev pub stored_run : RunRow
stored_run = record {
  id = "r1";
  name = "10-5";
  description = "Particle Swarm Optimization";
  status = "scheduled";
  run_type = "pso";
  command = "python code.py";
  created_by = "u2";
  created_at = "then";
  updated_at = "now";
}

-- Values are texts; every call succeeds, and the run gets the id r1.
abbrev pub services : Env
services = record {
  Value = String;
  text = λ s. s;
  encode = λ d. given "{}";
  encode_message = λ h m. given "message";
  perform = λ h c. none;
  verdict = λ h token. given alice;
  new_run = λ h row. given "r1";
  has_bucket = λ h bucket. given true;
  access_runs = λ h user. given (given "r1" ∷ []);
  run_rows = λ h ids. given (given stored_run ∷ []);
  user_ids = λ h emails. given (given "u2" ∷ []);
  run_id = λ h id. given id;
  access_run = λ h user id. given id;
  run_row = λ h id. given stored_run;
  queue_name = "";
  rabbitmq_url = "";
}

abbrev pub swarms : Kind String
swarms = pso_kind sample String (λ d. given swarm)

abbrev pub posted : Request String
posted = record {
  method = "POST";
  token = some "token";
  body = some (some (("algorithm", "original") ∷ []));
}

abbrev pub idle : State
idle = record { pooled = false; trace = [] }

abbrev pub success : Response (Fields String)
success = record {
  code = 200;
  message = "It works! 👍🏻";
  content = some (("algorithm", "original") ∷ ("runID", "r1") ∷ []);
}

after : State
after = (create services swarms posted idle).1

posted-ok : create services swarms posted idle ≡ (some success, after)
unfolding create after ◌>>=◌ on_error obtained lift lift_outcome auth body pool_conn upload_file
    ensure_bucket enqueue publish or_nil deferred register_run store clear report Pso_program.code
    validate contains
posted-ok = refl

create-Created_example : Created services swarms posted idle success after
create-Created_example = create-Created services swarms posted idle success after posted-ok refl

-- Nothing comes of a request without the cookie.
abbrev pub anonymous : Request String
anonymous = record posted { token = none }

abbrev unauthorized : Response (Fields String)
unauthorized = record { code = 401; message = "unauthorized"; content = none }

anonymous-refused : create services swarms anonymous idle ≡ (some unauthorized, idle)
unfolding create ◌>>=◌ on_error auth
anonymous-refused = refl

create-refused_example :
    (queued idle ≡ queued idle) × (◌≢◌ {A = ℕ} 401 500 → effects idle ≡ effects idle)
create-refused_example =
    create-refused services swarms anonymous idle unauthorized idle anonymous-refused
      (λ e. omega arith)

abbrev read_swarm : Data String → Reply (Pso sample)
read_swarm d = given swarm

posted-pso : create_pso sample services read_swarm posted idle ≡ (some success, after)
unfolding create_pso
posted-pso = posted-ok

create_pso-IsSound_example :
    (content : Data String) × (pso : Pso sample) × (run_id : String) × (posted.body ≡ some content)
    × (read_swarm content ≡ given pso)
    × IsSound sample pso
    × ((world after.trace).objects "code" (object_name run_id "code" "py")
        ≡ some (Pso_program.program sample pso))
create_pso-IsSound_example =
    create_pso-IsSound sample services read_swarm posted idle success after posted-pso refl

abbrev read_ea : Data String → Reply (Ea_config.Ea sample)
read_ea d = given one_max

after_ea : State
after_ea = (create_ea sample services read_ea posted idle).1

posted-ea : create_ea sample services read_ea posted idle ≡ (some success, after_ea)
unfolding create_ea create after_ea ◌>>=◌ on_error obtained lift lift_outcome auth body pool_conn
    upload_file ensure_bucket enqueue publish or_nil deferred register_run store clear report
    Ea_program.code Ea_config.validate validate_algorithm_name contains eval_function
    register_individual to_lower Ea_config.checked_range Ea_program.program
posted-ea = refl

create_ea-evaluates_example :
    (content : Data String) × (ea : Ea_config.Ea sample) × (run_id text : String) × (posted.body
      ≡ some content)
    × (read_ea content ≡ given ea)
    × (contains algorithm_names ea.algorithm ≡ true)
    × ((world after_ea.trace).objects "code" (object_name run_id "code" "py") ≡ some text)
    × Includes text
        ("toolbox.register(\"evaluate\", " <> (qualified sample ea.evaluation_function <> ")\n"))
create_ea-evaluates_example =
    create_ea-evaluates sample services sample-IsLawful read_ea posted idle success after_ea
      posted-ea refl

abbrev read_gp : Data String → Reply (Gp_config.Gp sample)
read_gp d = given regression

-- The entries in the order of the arguments.
abbrev as_listed : Order
as_listed es = es

after_gp : State
after_gp = (create_gp sample services as_listed read_gp posted idle).1

posted-gp : create_gp sample services as_listed read_gp posted idle ≡ (some success, after_gp)
unfolding create_gp create after_gp ◌>>=◌ on_error obtained lift lift_outcome auth body pool_conn
    upload_file ensure_bucket enqueue publish or_nil deferred register_run store clear report
    Gp_program.code Gp_config.validate validate_algorithm_name contains
posted-gp = refl

create_gp-known_example :
    (content : Data String) × (gp : Gp_config.Gp sample) × (run_id : String) × (posted.body
      ≡ some content)
    × (read_gp content ≡ given gp)
    × (contains algorithm_names gp.algorithm ≡ true)
    × ((world after_gp.trace).objects "code" (object_name run_id "code" "py")
        ≡ some (Gp_program.program sample gp (as_listed (arg_entries 0 gp.arg_names))))
create_gp-known_example =
    create_gp-known sample services as_listed read_gp posted idle success after_gp posted-gp refl

-- Without RabbitMQ the handler panics at the very end: the run is there, and its program is stored.
abbrev refuse_dial : Call → Option String
refuse_dial (dial_queue url) = some "connection refused"
refuse_dial c = none

abbrev unreachable : Env
unreachable = record services { perform = λ h c. refuse_dial c }

no_answer :
    ((create unreachable swarms posted idle).0 ≡ none)
    × (length (world (create unreachable swarms posted idle).1.trace).runs ≡ 1)
    × (length (queued (create unreachable swarms posted idle).1) ≡ 0)
unfolding create ◌>>=◌ on_error obtained lift lift_outcome auth body pool_conn upload_file
    ensure_bucket enqueue publish or_nil deferred register_run store clear report Pso_program.code
    validate contains
no_answer = (refl, refl, refl)
