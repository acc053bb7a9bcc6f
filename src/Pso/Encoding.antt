-- ===== src/Pso/Encoding.antt =====
-- A request of modules/pso.go as a JSON object, and its way back through `PSOFromJSON`.
use runner_controller_micros.Base.{◌≡◌, refl, some, [], ◌∷◌, ◌∙◌}
use runner_controller_micros.Base.Int.{ℤ, pos}
use runner_controller_micros.Base.Floats.{Floats}
use runner_controller_micros.Pso.Config.{Pso}
use runner_controller_micros.Pso.Decoding.{pso_from_json, pso_fields, zero_pso}
use runner_controller_micros.Json.Value.{Json, number, text, array}
use runner_controller_micros.Json.Keys.{sorted}
use runner_controller_micros.Json.Reader.{read_string, read_float}
use runner_controller_micros.Json.Struct.{set_all, find_field, from_json}
use runner_controller_micros.Json.Order.{SameMap}
use runner_controller_micros.Json.Keeps.{from_json-SameMap}
use runner_controller_micros.Json.Reads.{floats, IsWhole, read_int-number, read_slice-floats}
use runner_controller_micros.Service.World.{given, Fields}

-- `num` gives the number that stands for an int.
module _ (F : Floats) (num : ℤ → F.Float) where
  abbrev pub pso_members : Pso F → Fields (Json F.Float)
  pso_members pso =
      ("algorithm", text pso.algorithm)
      ∷ ("weights", array (floats pso.weights))
      ∷ ("dimensions", number (num pso.dimensions))
      ∷ ("minPosition", number pso.min_position)
      ∷ ("maxPosition", number pso.max_position)
      ∷ ("minSpeed", number pso.min_speed)
      ∷ ("maxSpeed", number pso.max_speed)
      ∷ ("phi1", number pso.phi1)
      ∷ ("phi2", number pso.phi2)
      ∷ ("benchmark", text pso.benchmark)
      ∷ ("populationSize", number (num pso.population_size))
      ∷ ("generations", number (num pso.generations))
      ∷ []

  -- The ints of the request are those of 64 bits that the text of a number shows exactly.
  pub record HasWholes (pso : Pso F) : Type 0 where
    pub dimensions : IsWhole F (num pso.dimensions) pso.dimensions
    pub population_size : IsWhole F (num pso.population_size) pso.population_size
    pub generations : IsWhole F (num pso.generations) pso.generations

  -- Decoding the members of a request whose ints have 64 bits, and are shown exactly by the text of a
  -- number, succeeds and returns that request.
  pub pso_from_json-members :
      {m : Fields (Json F.Float)} (pso : Pso F)
      → SameMap m (pso_members pso)
      → HasWholes pso
      → pso_from_json F (some m) ≡ given pso
  unfolding pso_from_json from_json sorted set_all find_field read_string read_float
  pso_from_json-members pso same w =
      from_json-SameMap "PSO" (pso_fields F) (zero_pso F) same
      ∙ rw
          (
            read_int-number F (num pso.dimensions) pso.dimensions (pos 0) w.dimensions,
            read_int-number F (num pso.population_size) pso.population_size (pos 0)
                w.population_size,
            read_int-number F (num pso.generations) pso.generations (pos 0) w.generations,
            read_slice-floats F pso.weights,
          )
          refl
