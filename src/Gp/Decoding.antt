-- ===== src/Gp/Decoding.antt =====
-- `GPFromJSON` of modules/gp.go: the request from the map that its JSON was decoded to.
use runner_controller_micros.Base.{List, [], ◌∷◌}
use runner_controller_micros.Base.Int.{pos}
use runner_controller_micros.Base.Floats.{Floats}
use runner_controller_micros.Gp.Config.{Gp}
use runner_controller_micros.Json.Value.{Json}
use runner_controller_micros.Json.Reader.{read_string, read_float, read_int, read_slice}
use runner_controller_micros.Json.Struct.{Field, field, from_json}
use runner_controller_micros.Service.World.{Reply, Data}

module _ (F : Floats) where
  -- `&GP{}`
  abbrev pub zero_gp : Gp F
  zero_gp = record {
    algorithm = "";
    arity = pos 0;
    operators = [];
    arg_names = [];
    individual_type = "";
    expr = "";
    real_function = "";
    min_ = pos 0;
    max_ = pos 0;
    individual_function = "";
    population_function = "";
    selection_function = "";
    tournament_size = pos 0;
    expr_mut = "";
    crossover_function = "";
    terminal_prob = F.lit 0;
    mutation_function = "";
    mutation_mode = "";
    mate_height = pos 0;
    mut_height = pos 0;
    weights = [];
    population_size = pos 0;
    generations = pos 0;
    cxpb = F.lit 0;
    mutpb = F.lit 0;
    mu = pos 0;
    lambda = pos 0;
    individual_size = pos 0;
    hof_size = pos 0;
    expr_mut_min = pos 0;
    expr_mut_max = pos 0;
  }

  -- The fields, with the names in their tags.
  abbrev pub gp_fields : List (Field F.Float (Gp F))
  gp_fields =
      field "algorithm" read_string (λ r. r.algorithm) (λ x r. record r { algorithm = x })
      ∷ field "arity" (read_int F) (λ r. r.arity) (λ x r. record r { arity = x })
      ∷ field "operators" (read_slice read_string "" "string") (λ r. r.operators)
          (λ x r. record r { operators = x })
      ∷ field "argNames" (read_slice read_string "" "string") (λ r. r.arg_names)
          (λ x r. record r { arg_names = x })
      ∷ field "individualType" read_string (λ r. r.individual_type)
          (λ x r. record r { individual_type = x })
      ∷ field "expr" read_string (λ r. r.expr) (λ x r. record r { expr = x })
      ∷ field "realFunction" read_string (λ r. r.real_function)
          (λ x r. record r { real_function = x })
      ∷ field "min_" (read_int F) (λ r. r.min_) (λ x r. record r { min_ = x })
      ∷ field "max_" (read_int F) (λ r. r.max_) (λ x r. record r { max_ = x })
      ∷ field "individualFunction" read_string (λ r. r.individual_function)
          (λ x r. record r { individual_function = x })
      ∷ field "populationFunction" read_string (λ r. r.population_function)
          (λ x r. record r { population_function = x })
      ∷ field "selectionFunction" read_string (λ r. r.selection_function)
          (λ x r. record r { selection_function = x })
      ∷ field "tournamentSize" (read_int F) (λ r. r.tournament_size)
          (λ x r. record r { tournament_size = x })
      ∷ field "expr_mut" read_string (λ r. r.expr_mut) (λ x r. record r { expr_mut = x })
      ∷ field "crossoverFunction" read_string (λ r. r.crossover_function)
          (λ x r. record r { crossover_function = x })
      ∷ field "terminalProb" (read_float F) (λ r. r.terminal_prob)
          (λ x r. record r { terminal_prob = x })
      ∷ field "mutationFunction" read_string (λ r. r.mutation_function)
          (λ x r. record r { mutation_function = x })
      ∷ field "mutationMode" read_string (λ r. r.mutation_mode)
          (λ x r. record r { mutation_mode = x })
      ∷ field "mateHeight" (read_int F) (λ r. r.mate_height) (λ x r. record r { mate_height = x })
      ∷ field "mutHeight" (read_int F) (λ r. r.mut_height) (λ x r. record r { mut_height = x })
      ∷ field "weights" (read_slice (read_float F) (F.lit 0) "float64") (λ r. r.weights)
          (λ x r. record r { weights = x })
      ∷ field "populationSize" (read_int F) (λ r. r.population_size)
          (λ x r. record r { population_size = x })
      ∷ field "generations" (read_int F) (λ r. r.generations) (λ x r. record r { generations = x })
      ∷ field "cxpb" (read_float F) (λ r. r.cxpb) (λ x r. record r { cxpb = x })
      ∷ field "mutpb" (read_float F) (λ r. r.mutpb) (λ x r. record r { mutpb = x })
      ∷ field "mu" (read_int F) (λ r. r.mu) (λ x r. record r { mu = x })
      ∷ field "lambda_" (read_int F) (λ r. r.lambda) (λ x r. record r { lambda = x })
      ∷ field "individualSize" (read_int F) (λ r. r.individual_size)
          (λ x r. record r { individual_size = x })
      ∷ field "hofSize" (read_int F) (λ r. r.hof_size) (λ x r. record r { hof_size = x })
      ∷ field "expr_mut_min" (read_int F) (λ r. r.expr_mut_min)
          (λ x r. record r { expr_mut_min = x })
      ∷ field "expr_mut_max" (read_int F) (λ r. r.expr_mut_max)
          (λ x r. record r { expr_mut_max = x })
      ∷ []

  unfoldable pub gp_from_json : Data (Json F.Float) → Reply (Gp F)
  gp_from_json = from_json "GP" gp_fields zero_gp
