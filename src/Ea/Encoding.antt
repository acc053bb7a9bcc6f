-- ===== src/Ea/Encoding.antt =====
-- A request of modules/ea.go as a JSON object, and its way back through `EAFromJSON`.
use runner_controller_micros.Base.{◌≡◌, refl, some, [], ◌∷◌, ◌∙◌}
use runner_controller_micros.Base.Int.{ℤ, pos}
use runner_controller_micros.Base.Floats.{Floats}
use runner_controller_micros.Ea.Config.{Ea}
use runner_controller_micros.Ea.Decoding.{ea_from_json, ea_fields, zero_ea}
use runner_controller_micros.Json.Value.{Json, number, text, array}
use runner_controller_micros.Json.Keys.{sorted}
use runner_controller_micros.Json.Reader.{read_string, read_float}
use runner_controller_micros.Json.Struct.{set_all, find_field, from_json}
use runner_controller_micros.Json.Order.{SameMap}
use runner_controller_micros.Json.Keeps.{from_json-SameMap}
use runner_controller_micros.Json.Reads.{floats, IsWhole, read_int-number, read_slice-floats}
use runner_controller_micros.Service.World.{given, Fields}

-- `num` gives the number that stands for an int.
module _ (F : Floats) (num : ℤ → F.Float) where
  abbrev pub ea_members : Ea F → Fields (Json F.Float)
  ea_members ea =
      ("algorithm", text ea.algorithm)
      ∷ ("individual", text ea.individual)
      ∷ ("populationFunction", text ea.population_function)
      ∷ ("customPop", text ea.custom_pop)
      ∷ ("evaluationFunction", text ea.evaluation_function)
      ∷ ("customEval", text ea.custom_eval)
      ∷ ("populationSize", number (num ea.population_size))
      ∷ ("generations", number (num ea.generations))
      ∷ ("cxpb", number ea.cxpb)
      ∷ ("mutpb", number ea.mutpb)
      ∷ ("weights", array (floats ea.weights))
      ∷ ("individualSize", number (num ea.individual_size))
      ∷ ("indpb", number ea.indpb)
      ∷ ("randomRange", array (floats ea.random_range))
      ∷ ("crossoverFunction", text ea.crossover_function)
      ∷ ("mutationFunction", text ea.mutation_function)
      ∷ ("customMutation", text ea.custom_mutation)
      ∷ ("selectionFunction", text ea.selection_function)
      ∷ ("customSelection", text ea.custom_selection)
      ∷ ("tournamentSize", number (num ea.tournament_size))
      ∷ ("mu", number (num ea.mu))
      ∷ ("lambda_", number (num ea.lambda))
      ∷ ("hofSize", number (num ea.hof_size))
      ∷ ("crossOverRate", number ea.cross_over_rate)
      ∷ ("scalingFactor", number ea.scaling_factor)
      ∷ []

  -- The ints of the request are those of 64 bits that the text of a number shows exactly.
  pub record HasWholes (ea : Ea F) : Type 0 where
    pub population_size : IsWhole F (num ea.population_size) ea.population_size
    pub generations : IsWhole F (num ea.generations) ea.generations
    pub individual_size : IsWhole F (num ea.individual_size) ea.individual_size
    pub tournament_size : IsWhole F (num ea.tournament_size) ea.tournament_size
    pub mu : IsWhole F (num ea.mu) ea.mu
    pub lambda : IsWhole F (num ea.lambda) ea.lambda
    pub hof_size : IsWhole F (num ea.hof_size) ea.hof_size

  -- Decoding the members of a request whose ints have 64 bits, and are shown exactly by the text of a
  -- number, succeeds and returns that request.
  pub ea_from_json-members :
      {m : Fields (Json F.Float)} (ea : Ea F)
      → SameMap m (ea_members ea)
      → HasWholes ea
      → ea_from_json F (some m) ≡ given ea
  unfolding ea_from_json from_json sorted set_all find_field read_string read_float
  ea_from_json-members ea same w =
      from_json-SameMap "EA" (ea_fields F) (zero_ea F) same
      ∙ rw
          (
            read_int-number F (num ea.population_size) ea.population_size (pos 0) w.population_size,
            read_int-number F (num ea.generations) ea.generations (pos 0) w.generations,
            read_int-number F (num ea.individual_size) ea.individual_size (pos 0) w.individual_size,
            read_int-number F (num ea.tournament_size) ea.tournament_size (pos 0) w.tournament_size,
            read_int-number F (num ea.mu) ea.mu (pos 0) w.mu,
            read_int-number F (num ea.lambda) ea.lambda (pos 0) w.lambda,
            read_int-number F (num ea.hof_size) ea.hof_size (pos 0) w.hof_size,
            read_slice-floats F ea.weights,
            read_slice-floats F ea.random_range,
          )
          refl
