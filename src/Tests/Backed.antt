-- ===== src/Tests/Backed.antt =====
-- A process that serves a creation, a sharing and a request for an unknown path.
use runner_controller_micros.Base.{◌≡◌, refl, String, some, List, [], ◌∷◌, length}
use runner_controller_micros.Base.Text.{contains, to_lower, translate}
use runner_controller_micros.Base.Decimal.Parsing.{parse_int, magnitude, digits_value}
use runner_controller_micros.Json.Value.{Json, text, Elements, array}
use runner_controller_micros.Service.World.{given, Env, Request, State, Fields}
use runner_controller_micros.Service.Effects.{world}
use runner_controller_micros.Service.Failures.{queued}
use runner_controller_micros.Service.Backing.{Backed}
use runner_controller_micros.Ea.Encoding.{ea_members}
use runner_controller_micros.Server.Endpoints.{table}
use runner_controller_micros.Server.Dispatch.{fresh, serve_all}
use runner_controller_micros.Server.Backed.{IsRequested, serve_all-Backed}
use runner_controller_micros.Server.Dispatch.{handle, to_handler, dispatch}
use runner_controller_micros.Server.Routes.{find}
use runner_controller_micros.Service.Kinds.{create_ea}
use runner_controller_micros.Service.Create.{register_run, store, clear, report, create}
use runner_controller_micros.Service.Exec.{
  ◌>>=◌, on_error, obtained, lift, lift_outcome, or_nil, deferred,
}
use runner_controller_micros.Service.Calls.{
  auth, body, pool_conn, upload_file, ensure_bucket, enqueue, publish,
}
use runner_controller_micros.Python.{validate_algorithm_name}
use runner_controller_micros.Ea.Config as Ea_config
use runner_controller_micros.Ea.Parts.{eval_function, register_individual}
use runner_controller_micros.Ea.Program as Ea_program
use runner_controller_micros.Ea.Decoding.{ea_from_json}
use runner_controller_micros.Json.Struct.{from_json, set_all, find_field, by_name, by_fold}
use runner_controller_micros.Json.Keys.{sorted, insert_key, fold}
use runner_controller_micros.Json.Reader.{
  read_string, read_slice, read_elements, read_int, read_float,
}
use runner_controller_micros.Runs.Handlers.{share}
use runner_controller_micros.Runs.Queries.{share_run, share_with, grant, scanned}
use runner_controller_micros.Runs.Decoding.{share_run_req_from_json}
use runner_controller_micros.Tests.Sample.{Sample, sample}
use runner_controller_micros.Tests.Service.{services}
use runner_controller_micros.Tests.Json.{num, small_ea}

abbrev json_services : Env
json_services = record services {
  Value = Json Sample;
  text = λ s. text s;
  encode = λ d. given "{}";
}

abbrev posted : Fields (Json Sample) → Request (Json Sample)
posted m = record { method = "POST"; token = some "token"; body = some (some m) }

abbrev requests : List (String × Request (Json Sample))
requests =
    ("/api/ea", posted (ea_members sample num small_ea))
    ∷ (
      "/api/runs/share",
      posted (
          ("runID", text "r1")
          ∷ ("userEmailList", array (Elements.cons (text "bob@example.com") Elements.nil))
          ∷ []),
    )
    ∷ ("/api/none", posted [])
    ∷ []

after : State
after = serve_all sample json_services (λ v. v) (λ s l. l) table requests fresh

serve_all-Backed_example :
    Backed json_services
      (IsRequested sample json_services (λ v. v) (λ s l. l) table requests)
      (world after.trace)
unfolding after
serve_all-Backed_example = serve_all-Backed sample json_services (λ v. v) (λ s l. l) table requests

-- One run is on the queue, and two accesses to it are there.
one_queued : (length (queued after) ≡ 1) × (length (world after.trace).accesses ≡ 2)
unfolding after serve_all dispatch to_handler handle find create_ea create ◌>>=◌ on_error obtained
    lift lift_outcome auth body pool_conn upload_file ensure_bucket enqueue publish or_nil deferred
    register_run store clear report Ea_program.code Ea_config.validate validate_algorithm_name
    contains eval_function register_individual to_lower Ea_config.checked_range Ea_program.program
    ea_from_json from_json set_all sorted insert_key find_field by_name by_fold fold translate
    read_string read_slice read_elements read_int share share_run share_with grant scanned
    share_run_req_from_json read_float parse_int magnitude digits_value
one_queued = (refl, refl)
