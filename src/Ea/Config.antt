-- ===== src/Ea/Config.antt =====
-- The request of modules/ea.go and its validation. A method that writes to its receiver returns the
-- new record.
use runner_controller_micros.Base.{String, List, [], ◌∷◌, Option, none, some, if◌then◌else◌}
use runner_controller_micros.Base.Int.{ℤ}
use runner_controller_micros.Base.Floats.{Floats}
use runner_controller_micros.Python.{validate_algorithm_name}

pub record Ea (F : Floats) : Type 0 where
  pub algorithm : String
  pub individual : String
  pub population_function : String
  pub custom_pop : String
  pub evaluation_function : String
  pub custom_eval : String
  pub population_size : ℤ
  pub generations : ℤ
  pub cxpb : F.Float
  pub mutpb : F.Float
  pub weights : List F.Float
  pub individual_size : ℤ
  pub indpb : F.Float
  pub random_range : List F.Float
  pub crossover_function : String
  pub mutation_function : String
  pub custom_mutation : String
  pub selection_function : String
  pub custom_selection : String
  pub tournament_size : ℤ
  pub mu : ℤ
  pub lambda : ℤ
  pub hof_size : ℤ
  pub cross_over_rate : F.Float
  pub scaling_factor : F.Float

module _ (F : Floats) where
  default_range : List F.Float
  default_range = F.lit 1 ∷ F.lit 5 ∷ []

  -- The range that `validate` leaves, from the one that the request gave.
  unfoldable pub checked_range : List F.Float → List F.Float
  unfolding default_range
  checked_range (lo ∷ hi ∷ []) = if F.ge lo hi then default_range else lo ∷ hi ∷ []
  checked_range _ = default_range

  -- The error, or `none`, with the receiver as the call leaves it.
  unfoldable pub validate : Ea F → Option String × Ea F
  unfolding checked_range
  validate ea = elim (validate_algorithm_name ea.algorithm) [
    | some e ↦ (some e, ea)
    | none ↦ (none, record ea { random_range = checked_range ea.random_range })
  ]
