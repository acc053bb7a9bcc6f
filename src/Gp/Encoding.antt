-- ===== src/Gp/Encoding.antt =====
-- A request of modules/gp.go as a JSON object, and its way back through `GPFromJSON`.
use runner_controller_micros.Base.{◌≡◌, refl, some, [], ◌∷◌, ◌∙◌}
use runner_controller_micros.Base.Int.{ℤ, pos}
use runner_controller_micros.Base.Floats.{Floats}
use runner_controller_micros.Gp.Config.{Gp}
use runner_controller_micros.Gp.Decoding.{gp_from_json, gp_fields, zero_gp}
use runner_controller_micros.Json.Value.{Json, number, text, array}
use runner_controller_micros.Json.Keys.{sorted}
use runner_controller_micros.Json.Reader.{read_string, read_float}
use runner_controller_micros.Json.Struct.{set_all, find_field, from_json}
use runner_controller_micros.Json.Order.{SameMap}
use runner_controller_micros.Json.Keeps.{from_json-SameMap}
use runner_controller_micros.Json.Reads.{
  floats, texts, IsWhole, read_int-number, read_slice-floats, read_slice-texts,
}
use runner_controller_micros.Service.World.{given, Fields}

-- `num` gives the number that stands for an int.
module _ (F : Floats) (num : ℤ → F.Float) where
  abbrev pub gp_members : Gp F → Fields (Json F.Float)
  gp_members gp =
      ("algorithm", text gp.algorithm)
      ∷ ("arity", number (num gp.arity))
      ∷ ("operators", array (texts gp.operators))
      ∷ ("argNames", array (texts gp.arg_names))
      ∷ ("individualType", text gp.individual_type)
      ∷ ("expr", text gp.expr)
      ∷ ("realFunction", text gp.real_function)
      ∷ ("min_", number (num gp.min_))
      ∷ ("max_", number (num gp.max_))
      ∷ ("individualFunction", text gp.individual_function)
      ∷ ("populationFunction", text gp.population_function)
      ∷ ("selectionFunction", text gp.selection_function)
      ∷ ("tournamentSize", number (num gp.tournament_size))
      ∷ ("expr_mut", text gp.expr_mut)
      ∷ ("crossoverFunction", text gp.crossover_function)
      ∷ ("terminalProb", number gp.terminal_prob)
      ∷ ("mutationFunction", text gp.mutation_function)
      ∷ ("mutationMode", text gp.mutation_mode)
      ∷ ("mateHeight", number (num gp.mate_height))
      ∷ ("mutHeight", number (num gp.mut_height))
      ∷ ("weights", array (floats gp.weights))
      ∷ ("populationSize", number (num gp.population_size))
      ∷ ("generations", number (num gp.generations))
      ∷ ("cxpb", number gp.cxpb)
      ∷ ("mutpb", number gp.mutpb)
      ∷ ("mu", number (num gp.mu))
      ∷ ("lambda_", number (num gp.lambda))
      ∷ ("individualSize", number (num gp.individual_size))
      ∷ ("hofSize", number (num gp.hof_size))
      ∷ ("expr_mut_min", number (num gp.expr_mut_min))
      ∷ ("expr_mut_max", number (num gp.expr_mut_max))
      ∷ []

  -- The ints of the request are those of 64 bits that the text of a number shows exactly.
  pub record HasWholes (gp : Gp F) : Type 0 where
    pub arity : IsWhole F (num gp.arity) gp.arity
    pub min_ : IsWhole F (num gp.min_) gp.min_
    pub max_ : IsWhole F (num gp.max_) gp.max_
    pub tournament_size : IsWhole F (num gp.tournament_size) gp.tournament_size
    pub mate_height : IsWhole F (num gp.mate_height) gp.mate_height
    pub mut_height : IsWhole F (num gp.mut_height) gp.mut_height
    pub population_size : IsWhole F (num gp.population_size) gp.population_size
    pub generations : IsWhole F (num gp.generations) gp.generations
    pub mu : IsWhole F (num gp.mu) gp.mu
    pub lambda : IsWhole F (num gp.lambda) gp.lambda
    pub individual_size : IsWhole F (num gp.individual_size) gp.individual_size
    pub hof_size : IsWhole F (num gp.hof_size) gp.hof_size
    pub expr_mut_min : IsWhole F (num gp.expr_mut_min) gp.expr_mut_min
    pub expr_mut_max : IsWhole F (num gp.expr_mut_max) gp.expr_mut_max

  -- Decoding the members of a request whose ints have 64 bits, and are shown exactly by the text of a
  -- number, succeeds and returns that request.
  pub gp_from_json-members :
      {m : Fields (Json F.Float)} (gp : Gp F)
      → SameMap m (gp_members gp)
      → HasWholes gp
      → gp_from_json F (some m) ≡ given gp
  unfolding gp_from_json from_json sorted set_all find_field read_string read_float
  gp_from_json-members gp same w =
      from_json-SameMap "GP" (gp_fields F) (zero_gp F) same
      ∙ rw
          (
            read_int-number F (num gp.arity) gp.arity (pos 0) w.arity,
            read_int-number F (num gp.min_) gp.min_ (pos 0) w.min_,
            read_int-number F (num gp.max_) gp.max_ (pos 0) w.max_,
            read_int-number F (num gp.tournament_size) gp.tournament_size (pos 0) w.tournament_size,
            read_int-number F (num gp.mate_height) gp.mate_height (pos 0) w.mate_height,
            read_int-number F (num gp.mut_height) gp.mut_height (pos 0) w.mut_height,
            read_int-number F (num gp.population_size) gp.population_size (pos 0) w.population_size,
            read_int-number F (num gp.generations) gp.generations (pos 0) w.generations,
            read_int-number F (num gp.mu) gp.mu (pos 0) w.mu,
            read_int-number F (num gp.lambda) gp.lambda (pos 0) w.lambda,
            read_int-number F (num gp.individual_size) gp.individual_size (pos 0) w.individual_size,
            read_int-number F (num gp.hof_size) gp.hof_size (pos 0) w.hof_size,
            read_int-number F (num gp.expr_mut_min) gp.expr_mut_min (pos 0) w.expr_mut_min,
            read_int-number F (num gp.expr_mut_max) gp.expr_mut_max (pos 0) w.expr_mut_max,
            read_slice-texts F.Float gp.operators,
            read_slice-texts F.Float gp.arg_names,
            read_slice-floats F gp.weights,
          )
          refl
