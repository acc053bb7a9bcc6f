-- ===== src/Pso/Config.antt =====
-- The request of modules/pso.go and its validation.
use runner_controller_micros.Base.{
  String, List, [], ◌∷◌, ◌<>◌, Option, none, some, if◌then◌else◌, not,
}
use runner_controller_micros.Base.Int.{ℤ, is_nonpositive}
use runner_controller_micros.Base.Text.{contains}
use runner_controller_micros.Base.Decimal.{fmt_d}
use runner_controller_micros.Base.Floats.{Floats}
use runner_controller_micros.Python.{benchmark_names}

pub record Pso (F : Floats) : Type 0 where
  pub algorithm : String
  pub weights : List F.Float
  pub dimensions : ℤ
  pub min_position : F.Float
  pub max_position : F.Float
  pub min_speed : F.Float
  pub max_speed : F.Float
  pub phi1 : F.Float
  pub phi2 : F.Float
  pub benchmark : String
  pub population_size : ℤ
  pub generations : ℤ

abbrev pub swarm_algorithms : List String
swarm_algorithms = "original" ∷ "multiswarm" ∷ "speciation" ∷ []

-- `none` is the error `nil`.
unfoldable pub validate : (F : Floats) → Pso F → Option String
validate F pso =
    if not (contains swarm_algorithms pso.algorithm)
    then some ("invalid PSO algorithm name: " <> pso.algorithm)
    else if is_nonpositive pso.dimensions
    then some ("invalid number of dimensions: " <> fmt_d pso.dimensions)
    else if F.ge pso.min_position pso.max_position
    then some (
        "invalid min/max position: "
        <> (F.fmt_f pso.min_position <> ("/" <> F.fmt_f pso.max_position)))
    else if F.ge pso.min_speed pso.max_speed
    then some
        ("invalid min/max speed: " <> (F.fmt_f pso.min_speed <> ("/" <> F.fmt_f pso.max_speed)))
    else if not (contains benchmark_names pso.benchmark)
    then some ("invalid benchmark function: " <> pso.benchmark)
    else if is_nonpositive pso.population_size
    then some ("invalid population size: " <> fmt_d pso.population_size)
    else if is_nonpositive pso.generations
    then some ("invalid number of generations: " <> fmt_d pso.generations)
    else none
