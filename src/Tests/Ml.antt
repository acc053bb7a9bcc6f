-- ===== src/Tests/Ml.antt =====
-- A request for modules/ml.go, and the run that comes of it.
use runner_controller_micros.Base.{◌≡◌, refl, ◌⊎◌, String, true, some, [], ◌∷◌}
use runner_controller_micros.Base.Int.{pos}
use runner_controller_micros.Base.Text.{contains, Includes}
use runner_controller_micros.Base.Outcome.{ok}
use runner_controller_micros.Python.{algorithm_names, validate_algorithm_name}
use runner_controller_micros.Ml.Config.{Eaml, validate}
use runner_controller_micros.Ml.Program.{program, code, call_algo}
use runner_controller_micros.Ml.Contents.{calls, ml_algorithm_called}
use runner_controller_micros.Service.World.{Reply, given, Data, State}
use runner_controller_micros.Service.Exec.{
  ◌>>=◌, on_error, obtained, lift, lift_outcome, or_nil, deferred,
}
use runner_controller_micros.Service.Calls.{
  auth, body, pool_conn, upload_file, ensure_bucket, enqueue, publish,
}
use runner_controller_micros.Service.Create.{register_run, store, clear, report, create}
use runner_controller_micros.Service.Kinds.{create_ml}
use runner_controller_micros.Service.Effects.{world}
use runner_controller_micros.Service.Progress.{object_name}
use runner_controller_micros.Service.Algorithms.{create_ml-known}
use runner_controller_micros.Tests.Sample.{half, one, sample}
use runner_controller_micros.Tests.Service.{services, posted, idle, success}

abbrev columns : Eaml sample
columns = record {
  algorithm = "eaMuPlusLambda";
  ml_eval_function_code_string = "def mlEvalFunction(individual, X, y):\n\treturn 1,\n";
  population_size = pos 5;
  generations = pos 10;
  cxpb = half;
  mutpb = half;
  weights = one ∷ [];
  google_drive_url = "";
  sep = ",";
  ml_import_code_string = "";
  target_column_name = "";
  indpb = half;
  crossover_function = "cxOnePoint";
  mutation_function = "mutFlipBit";
  selection_function = "selTournament";
  tournament_size = pos 1;
  mu = pos 1;
  lambda = pos 1;
  hof_size = pos 1;
}

columns_text : String
columns_text = program sample columns

columns-ok : code sample columns ≡ ok columns_text
unfolding code validate validate_algorithm_name contains columns_text
columns-ok = refl

ml_algorithm_called_example :
    Includes columns_text columns.ml_eval_function_code_string
    × (((columns.algorithm ≡ "de") × (call_algo sample columns ≡ ""))
        ⊎ Includes columns_text (calls "eaMuPlusLambda"))
ml_algorithm_called_example = ml_algorithm_called sample columns columns_text columns-ok

abbrev read_columns : Data String → Reply (Eaml sample)
read_columns d = given columns

after_columns : State
after_columns = (create_ml sample services read_columns posted idle).1

posted-columns : create_ml sample services read_columns posted idle ≡ (some success, after_columns)
unfolding create_ml create after_columns ◌>>=◌ on_error obtained lift lift_outcome auth body
    pool_conn upload_file ensure_bucket enqueue publish or_nil deferred register_run store clear
    report code validate validate_algorithm_name contains
posted-columns = refl

create_ml-known_example :
    (content : Data String) × (ml : Eaml sample) × (run_id : String) × (posted.body ≡ some content)
    × (read_columns content ≡ given ml)
    × (contains algorithm_names ml.algorithm ≡ true)
    × ((world after_columns.trace).objects "code" (object_name run_id "code" "py")
        ≡ some (program sample ml))
create_ml-known_example =
    create_ml-known sample services read_columns posted idle success after_columns posted-columns
      refl
