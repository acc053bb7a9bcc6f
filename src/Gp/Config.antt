-- ===== src/Gp/Config.antt =====
-- The request of modules/gp.go and its validation.
use runner_controller_micros.Base.{String, List, Option}
use runner_controller_micros.Base.Int.{ℤ}
use runner_controller_micros.Base.Floats.{Floats}
use runner_controller_micros.Python.{validate_algorithm_name}

pub record Gp (F : Floats) : Type 0 where
  pub algorithm : String
  pub arity : ℤ
  pub operators : List String
  pub arg_names : List String
  pub individual_type : String
  pub expr : String
  pub real_function : String
  pub min_ : ℤ
  pub max_ : ℤ
  pub individual_function : String
  pub population_function : String
  pub selection_function : String
  pub tournament_size : ℤ
  pub expr_mut : String
  pub crossover_function : String
  pub terminal_prob : F.Float
  pub mutation_function : String
  pub mutation_mode : String
  pub mate_height : ℤ
  pub mut_height : ℤ
  pub weights : List F.Float
  pub population_size : ℤ
  pub generations : ℤ
  pub cxpb : F.Float
  pub mutpb : F.Float
  pub mu : ℤ
  pub lambda : ℤ
  pub individual_size : ℤ
  pub hof_size : ℤ
  pub expr_mut_min : ℤ
  pub expr_mut_max : ℤ

-- `none` is the error `nil`.
unfoldable pub validate : (F : Floats) → Gp F → Option String
validate F gp = validate_algorithm_name gp.algorithm
