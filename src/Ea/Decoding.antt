-- ===== src/Ea/Decoding.antt =====
-- `EAFromJSON` of modules/ea.go: the request from the map that its JSON was decoded to.
use runner_controller_micros.Base.{List, [], ◌∷◌}
use runner_controller_micros.Base.Int.{pos}
use runner_controller_micros.Base.Floats.{Floats}
use runner_controller_micros.Ea.Config.{Ea}
use runner_controller_micros.Json.Value.{Json}
use runner_controller_micros.Json.Reader.{read_string, read_float, read_int, read_slice}
use runner_controller_micros.Json.Struct.{Field, field, from_json}
use runner_controller_micros.Service.World.{Reply, Data}

module _ (F : Floats) where
  -- `&EA{}`
  abbrev pub zero_ea : Ea F
  zero_ea = record {
    algorithm = "";
    individual = "";
    population_function = "";
    custom_pop = "";
    evaluation_function = "";
    custom_eval = "";
    population_size = pos 0;
    generations = pos 0;
    cxpb = F.lit 0;
    mutpb = F.lit 0;
    weights = [];
    individual_size = pos 0;
    indpb = F.lit 0;
    random_range = [];
    crossover_function = "";
    mutation_function = "";
    custom_mutation = "";
    selection_function = "";
    custom_selection = "";
    tournament_size = pos 0;
    mu = pos 0;
    lambda = pos 0;
    hof_size = pos 0;
    cross_over_rate = F.lit 0;
    scaling_factor = F.lit 0;
  }

  -- The fields, with the names in their tags.
  abbrev pub ea_fields : List (Field F.Float (Ea F))
  ea_fields =
      field "algorithm" read_string (λ r. r.algorithm) (λ x r. record r { algorithm = x })
      ∷ field "individual" read_string (λ r. r.individual) (λ x r. record r { individual = x })
      ∷ field "populationFunction" read_string (λ r. r.population_function)
          (λ x r. record r { population_function = x })
      ∷ field "customPop" read_string (λ r. r.custom_pop) (λ x r. record r { custom_pop = x })
      ∷ field "evaluationFunction" read_string (λ r. r.evaluation_function)
          (λ x r. record r { evaluation_function = x })
      ∷ field "customEval" read_string (λ r. r.custom_eval) (λ x r. record r { custom_eval = x })
      ∷ field "populationSize" (read_int F) (λ r. r.population_size)
          (λ x r. record r { population_size = x })
      ∷ field "generations" (read_int F) (λ r. r.generations) (λ x r. record r { generations = x })
      ∷ field "cxpb" (read_float F) (λ r. r.cxpb) (λ x r. record r { cxpb = x })
      ∷ field "mutpb" (read_float F) (λ r. r.mutpb) (λ x r. record r { mutpb = x })
      ∷ field "weights" (read_slice (read_float F) (F.lit 0) "float64") (λ r. r.weights)
          (λ x r. record r { weights = x })
      ∷ field "individualSize" (read_int F) (λ r. r.individual_size)
          (λ x r. record r { individual_size = x })
      ∷ field "indpb" (read_float F) (λ r. r.indpb) (λ x r. record r { indpb = x })
      ∷ field "randomRange" (read_slice (read_float F) (F.lit 0) "float64") (λ r. r.random_range)
          (λ x r. record r { random_range = x })
      ∷ field "crossoverFunction" read_string (λ r. r.crossover_function)
          (λ x r. record r { crossover_function = x })
      ∷ field "mutationFunction" read_string (λ r. r.mutation_function)
          (λ x r. record r { mutation_function = x })
      ∷ field "customMutation" read_string (λ r. r.custom_mutation)
          (λ x r. record r { custom_mutation = x })
      ∷ field "selectionFunction" read_string (λ r. r.selection_function)
          (λ x r. record r { selection_function = x })
      ∷ field "customSelection" read_string (λ r. r.custom_selection)
          (λ x r. record r { custom_selection = x })
      ∷ field "tournamentSize" (read_int F) (λ r. r.tournament_size)
          (λ x r. record r { tournament_size = x })
      ∷ field "mu" (read_int F) (λ r. r.mu) (λ x r. record r { mu = x })
      ∷ field "lambda_" (read_int F) (λ r. r.lambda) (λ x r. record r { lambda = x })
      ∷ field "hofSize" (read_int F) (λ r. r.hof_size) (λ x r. record r { hof_size = x })
      ∷ field "crossOverRate" (read_float F) (λ r. r.cross_over_rate)
          (λ x r. record r { cross_over_rate = x })
      ∷ field "scalingFactor" (read_float F) (λ r. r.scaling_factor)
          (λ x r. record r { scaling_factor = x })
      ∷ []

  unfoldable pub ea_from_json : Data (Json F.Float) → Reply (Ea F)
  ea_from_json = from_json "EA" ea_fields zero_ea
