-- ===== src/Ml/Encoding.antt =====
-- A request of modules/ml.go as a JSON object, and its way back through `MLFromJSON`.
use runner_controller_micros.Base.{◌≡◌, refl, some, [], ◌∷◌, ◌∙◌}
use runner_controller_micros.Base.Int.{ℤ, pos}
use runner_controller_micros.Base.Floats.{Floats}
use runner_controller_micros.Ml.Config.{Eaml}
use runner_controller_micros.Ml.Decoding.{ml_from_json, ml_fields, zero_ml}
use runner_controller_micros.Json.Value.{Json, number, text, array}
use runner_controller_micros.Json.Keys.{sorted}
use runner_controller_micros.Json.Reader.{read_string, read_float}
use runner_controller_micros.Json.Struct.{set_all, find_field, from_json}
use runner_controller_micros.Json.Order.{SameMap}
use runner_controller_micros.Json.Keeps.{from_json-SameMap}
use runner_controller_micros.Json.Reads.{floats, IsWhole, read_int-number, read_slice-floats}
use runner_controller_micros.Service.World.{given, Fields}

-- `num` gives the number that stands for an int.
module _ (F : Floats) (num : ℤ → F.Float) where
  abbrev pub ml_members : Eaml F → Fields (Json F.Float)
  ml_members ml =
      ("algorithm", text ml.algorithm)
      ∷ ("mlEvalFunctionCodeString", text ml.ml_eval_function_code_string)
      ∷ ("populationSize", number (num ml.population_size))
      ∷ ("generations", number (num ml.generations))
      ∷ ("cxpb", number ml.cxpb)
      ∷ ("mutpb", number ml.mutpb)
      ∷ ("weights", array (floats ml.weights))
      ∷ ("googleDriveUrl", text ml.google_drive_url)
      ∷ ("sep", text ml.sep)
      ∷ ("mlImportCodeString", text ml.ml_import_code_string)
      ∷ ("targetColumnName", text ml.target_column_name)
      ∷ ("indpb", number ml.indpb)
      ∷ ("crossoverFunction", text ml.crossover_function)
      ∷ ("mutationFunction", text ml.mutation_function)
      ∷ ("selectionFunction", text ml.selection_function)
      ∷ ("tournamentSize", number (num ml.tournament_size))
      ∷ ("mu", number (num ml.mu))
      ∷ ("lambda_", number (num ml.lambda))
      ∷ ("hofSize", number (num ml.hof_size))
      ∷ []

  -- The ints of the request are those of 64 bits that the text of a number shows exactly.
  pub record HasWholes (ml : Eaml F) : Type 0 where
    pub population_size : IsWhole F (num ml.population_size) ml.population_size
    pub generations : IsWhole F (num ml.generations) ml.generations
    pub tournament_size : IsWhole F (num ml.tournament_size) ml.tournament_size
    pub mu : IsWhole F (num ml.mu) ml.mu
    pub lambda : IsWhole F (num ml.lambda) ml.lambda
    pub hof_size : IsWhole F (num ml.hof_size) ml.hof_size

  -- Decoding the members of a request whose ints have 64 bits, and are shown exactly by the text of a
  -- number, succeeds and returns that request.
  pub ml_from_json-members :
      {m : Fields (Json F.Float)} (ml : Eaml F)
      → SameMap m (ml_members ml)
      → HasWholes ml
      → ml_from_json F (some m) ≡ given ml
  unfolding ml_from_json from_json sorted set_all find_field read_string read_float
  ml_from_json-members ml same w =
      from_json-SameMap "EAML" (ml_fields F) (zero_ml F) same
      ∙ rw
          (
            read_int-number F (num ml.population_size) ml.population_size (pos 0) w.population_size,
            read_int-number F (num ml.generations) ml.generations (pos 0) w.generations,
            read_int-number F (num ml.tournament_size) ml.tournament_size (pos 0) w.tournament_size,
            read_int-number F (num ml.mu) ml.mu (pos 0) w.mu,
            read_int-number F (num ml.lambda) ml.lambda (pos 0) w.lambda,
            read_int-number F (num ml.hof_size) ml.hof_size (pos 0) w.hof_size,
            read_slice-floats F ml.weights,
          )
          refl
