-- ===== src/Pso/Decoding.antt =====
-- `PSOFromJSON` of modules/pso.go: the request from the map that its JSON was decoded to.
use runner_controller_micros.Base.{List, [], ◌∷◌}
use runner_controller_micros.Base.Int.{pos}
use runner_controller_micros.Base.Floats.{Floats}
use runner_controller_micros.Pso.Config.{Pso}
use runner_controller_micros.Json.Value.{Json}
use runner_controller_micros.Json.Reader.{read_string, read_float, read_int, read_slice}
use runner_controller_micros.Json.Struct.{Field, field, from_json}
use runner_controller_micros.Service.World.{Reply, Data}

module _ (F : Floats) where
  -- `&PSO{}`
  abbrev pub zero_pso : Pso F
  zero_pso = record {
    algorithm = "";
    weights = [];
    dimensions = pos 0;
    min_position = F.lit 0;
    max_position = F.lit 0;
    min_speed = F.lit 0;
    max_speed = F.lit 0;
    phi1 = F.lit 0;
    phi2 = F.lit 0;
    benchmark = "";
    population_size = pos 0;
    generations = pos 0;
  }

  -- The fields, with the names in their tags.
  abbrev pub pso_fields : List (Field F.Float (Pso F))
  pso_fields =
      field "algorithm" read_string (λ r. r.algorithm) (λ x r. record r { algorithm = x })
      ∷ field "weights" (read_slice (read_float F) (F.lit 0) "float64") (λ r. r.weights)
          (λ x r. record r { weights = x })
      ∷ field "dimensions" (read_int F) (λ r. r.dimensions) (λ x r. record r { dimensions = x })
      ∷ field "minPosition" (read_float F) (λ r. r.min_position)
          (λ x r. record r { min_position = x })
      ∷ field "maxPosition" (read_float F) (λ r. r.max_position)
          (λ x r. record r { max_position = x })
      ∷ field "minSpeed" (read_float F) (λ r. r.min_speed) (λ x r. record r { min_speed = x })
      ∷ field "maxSpeed" (read_float F) (λ r. r.max_speed) (λ x r. record r { max_speed = x })
      ∷ field "phi1" (read_float F) (λ r. r.phi1) (λ x r. record r { phi1 = x })
      ∷ field "phi2" (read_float F) (λ r. r.phi2) (λ x r. record r { phi2 = x })
      ∷ field "benchmark" read_string (λ r. r.benchmark) (λ x r. record r { benchmark = x })
      ∷ field "populationSize" (read_int F) (λ r. r.population_size)
          (λ x r. record r { population_size = x })
      ∷ field "generations" (read_int F) (λ r. r.generations) (λ x r. record r { generations = x })
      ∷ []

  unfoldable pub pso_from_json : Data (Json F.Float) → Reply (Pso F)
  pso_from_json = from_json "PSO" pso_fields zero_pso
