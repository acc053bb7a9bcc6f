-- ===== src/Ml/Config.antt =====
-- The request of modules/ml.go and its validation.
use runner_controller_micros.Base.{String, List, Option}
use runner_controller_micros.Base.Int.{ℤ}
use runner_controller_micros.Base.Floats.{Floats}
use runner_controller_micros.Python.{validate_algorithm_name}

pub record Eaml (F : Floats) : Type 0 where
  pub algorithm : String
  pub ml_eval_function_code_string : String
  pub population_size : ℤ
  pub generations : ℤ
  pub cxpb : F.Float
  pub mutpb : F.Float
  pub weights : List F.Float
  pub google_drive_url : String
  pub sep : String
  pub ml_import_code_string : String
  pub target_column_name : String
  pub indpb : F.Float
  pub crossover_function : String
  pub mutation_function : String
  pub selection_function : String
  pub tournament_size : ℤ
  pub mu : ℤ
  pub lambda : ℤ
  pub hof_size : ℤ

-- `none` is the error `nil`.
unfoldable pub validate : (F : Floats) → Eaml F → Option String
validate F ml = validate_algorithm_name ml.algorithm
