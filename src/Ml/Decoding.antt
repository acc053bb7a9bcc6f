-- ===== src/Ml/Decoding.antt =====
-- `MLFromJSON` of modules/ml.go: the request from the map that its JSON was decoded to.
use runner_controller_micros.Base.{List, [], ◌∷◌}
use runner_controller_micros.Base.Int.{pos}
use runner_controller_micros.Base.Floats.{Floats}
use runner_controller_micros.Ml.Config.{Eaml}
use runner_controller_micros.Json.Value.{Json}
use runner_controller_micros.Json.Reader.{read_string, read_float, read_int, read_slice}
use runner_controller_micros.Json.Struct.{Field, field, from_json}
use runner_controller_micros.Service.World.{Reply, Data}

module _ (F : Floats) where
  -- `&EAML{}`
  abbrev pub zero_ml : Eaml F
  zero_ml = record {
    algorithm = "";
    ml_eval_function_code_string = "";
    population_size = pos 0;
    generations = pos 0;
    cxpb = F.lit 0;
    mutpb = F.lit 0;
    weights = [];
    google_drive_url = "";
    sep = "";
    ml_import_code_string = "";
    target_column_name = "";
    indpb = F.lit 0;
    crossover_function = "";
    mutation_function = "";
    selection_function = "";
    tournament_size = pos 0;
    mu = pos 0;
    lambda = pos 0;
    hof_size = pos 0;
  }

  -- The fields, with the names in their tags.
  abbrev pub ml_fields : List (Field F.Float (Eaml F))
  ml_fields =
      field "algorithm" read_string (λ r. r.algorithm) (λ x r. record r { algorithm = x })
      ∷ field "mlEvalFunctionCodeString" read_string (λ r. r.ml_eval_function_code_string)
          (λ x r. record r { ml_eval_function_code_string = x })
      ∷ field "populationSize" (read_int F) (λ r. r.population_size)
          (λ x r. record r { population_size = x })
      ∷ field "generations" (read_int F) (λ r. r.generations) (λ x r. record r { generations = x })
      ∷ field "cxpb" (read_float F) (λ r. r.cxpb) (λ x r. record r { cxpb = x })
      ∷ field "mutpb" (read_float F) (λ r. r.mutpb) (λ x r. record r { mutpb = x })
      ∷ field "weights" (read_slice (read_float F) (F.lit 0) "float64") (λ r. r.weights)
          (λ x r. record r { weights = x })
      ∷ field "googleDriveUrl" read_string (λ r. r.google_drive_url)
          (λ x r. record r { google_drive_url = x })
      ∷ field "sep" read_string (λ r. r.sep) (λ x r. record r { sep = x })
      ∷ field "mlImportCodeString" read_string (λ r. r.ml_import_code_string)
          (λ x r. record r { ml_import_code_string = x })
      ∷ field "targetColumnName" read_string (λ r. r.target_column_name)
          (λ x r. record r { target_column_name = x })
      ∷ field "indpb" (read_float F) (λ r. r.indpb) (λ x r. record r { indpb = x })
      ∷ field "crossoverFunction" read_string (λ r. r.crossover_function)
          (λ x r. record r { crossover_function = x })
      ∷ field "mutationFunction" read_string (λ r. r.mutation_function)
          (λ x r. record r { mutation_function = x })
      ∷ field "selectionFunction" read_string (λ r. r.selection_function)
          (λ x r. record r { selection_function = x })
      ∷ field "tournamentSize" (read_int F) (λ r. r.tournament_size)
          (λ x r. record r { tournament_size = x })
      ∷ field "mu" (read_int F) (λ r. r.mu) (λ x r. record r { mu = x })
      ∷ field "lambda_" (read_int F) (λ r. r.lambda) (λ x r. record r { lambda = x })
      ∷ field "hofSize" (read_int F) (λ r. r.hof_size) (λ x r. record r { hof_size = x })
      ∷ []

  unfoldable pub ml_from_json : Data (Json F.Float) → Reply (Eaml F)
  ml_from_json = from_json "EAML" ml_fields zero_ml
