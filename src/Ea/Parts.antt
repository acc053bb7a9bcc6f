-- ===== src/Ea/Parts.antt =====
-- The parts of the generated program that depend on the request: one function per method of
-- modules/ea.go, over the receiver as it stands when the method is called.
use mathlib.Core.Option
use runner_controller_micros.Base.{
  String, ◌<>◌, List, [], ◌∷◌, ◌==◌, Option, none, some, if◌then◌else◌,
}
use runner_controller_micros.Base.Text.{contains, concat, to_lower}
use runner_controller_micros.Base.Decimal.{fmt_d}
use runner_controller_micros.Base.Floats.{Floats}
use runner_controller_micros.Python.{benchmark_names}
use runner_controller_micros.Ea.Config.{Ea}

module _ (F : Floats) where
  custom_or_builtin : Ea F → String
  custom_or_builtin ea =
      if ea.evaluation_function == "evalOneMax"
      then "def evalOneMax(individual):\n    return sum(individual),"
      else if ea.evaluation_function == "evalProduct"
      then "def evalProduct(individual):\n    return reduce(lambda x, y: x*y, individual),"
      else if ea.evaluation_function == "evalDifference"
      then "def evalDifference(individual):\n    return reduce(lambda x, y: x-y, individual),"
      else ea.custom_eval

  -- `evalFunction`: the text, and the receiver, in which a benchmark's name is qualified.
  unfoldable pub eval_function : Ea F → String × Ea F
  unfolding custom_or_builtin
  eval_function ea =
      if contains benchmark_names ea.evaluation_function
      then ("", record ea { evaluation_function = "benchmarks." <> ea.evaluation_function })
      else (custom_or_builtin ea, ea)

  -- `RandomRange[0]` and `RandomRange[1]`, or `none` where Go panics.
  range_ends : List F.Float → Option (F.Float × F.Float)
  range_ends (lo ∷ hi ∷ _) = some (lo, hi)
  range_ends _ = none

  -- `registerIndividual`; `none` is the panic of an index out of range.
  unfoldable pub register_individual : Ea F → Option String
  unfolding range_ends
  register_individual ea =
      let kind = to_lower ea.individual in
      if kind == "binarystring"
      then some "toolbox.register(\"attr\", random.randint, 0, 1)\n"
      else if kind == "floatingpoint"
      then Option.map
          (λ (lo, hi). concat (
            "toolbox.register(\"attr\", random.uniform, "
            ∷ F.fmt_f lo
            ∷ ", "
            ∷ F.fmt_f hi
            ∷ ")\n"
            ∷ []))
          (range_ends ea.random_range)
      else if kind == "integer"
      then Option.map
          (λ (lo, hi). concat (
            "toolbox.register(\"attr\", random.randint, "
            ∷ fmt_d (F.to_int lo)
            ∷ ", "
            ∷ fmt_d (F.to_int hi)
            ∷ ")\n"
            ∷ []))
          (range_ends ea.random_range)
      else some ""

  unfoldable pub initial_generator : Ea F → String
  initial_generator ea =
      if ea.population_function == "initRepeat"
      then (concat (
          "toolbox.register(\"individual\", tools."
          ∷ ea.population_function
          ∷ ", creator.Individual, toolbox.attr, "
          ∷ fmt_d ea.individual_size
          ∷ ")\n"
          ∷ "toolbox.register(\"population\", tools."
          ∷ ea.population_function
          ∷ ", list, toolbox.individual)\n"
          ∷ []))
      else (concat (
          "toolbox.register(\"individual\", tools."
          ∷ "initRepeat"
          ∷ ", creator.Individual, toolbox.attr, "
          ∷ fmt_d ea.individual_size
          ∷ ")\n"
          ∷ "toolbox.register(\"population\", tools."
          ∷ "initRepeat"
          ∷ ", list, toolbox.individual)\n"
          ∷ []))

  unfoldable pub mutation_function : Ea F → String
  mutation_function ea =
      if ea.algorithm == "de"
      then (concat ("toolbox.register(\"mutate\", mutDE, f=" ∷ F.fmt_f ea.indpb ∷ ")\n" ∷ []))
      else if ea.mutation_function == "mutFlipBit"
      then (concat (
          "toolbox.register(\"mutate\", tools."
          ∷ ea.mutation_function
          ∷ ", indpb="
          ∷ F.fmt_f ea.indpb
          ∷ ")\n"
          ∷ []))
      else if ea.mutation_function == "mutShuffleIndexes"
      then (concat (
          "toolbox.register(\"mutate\", tools."
          ∷ ea.mutation_function
          ∷ ", indpb="
          ∷ F.fmt_f ea.indpb
          ∷ ")\n"
          ∷ []))
      else ea.mutation_function

  unfoldable pub selection_function : Ea F → String
  selection_function ea =
      if ea.selection_function == "selTournament"
      then (concat (
          "toolbox.register(\"select\", tools."
          ∷ ea.selection_function
          ∷ ", tournsize="
          ∷ fmt_d ea.tournament_size
          ∷ ")\n"
          ∷ []))
      else (concat ("toolbox.register(\"select\", tools." ∷ ea.selection_function ∷ ")\n" ∷ []))

  unfoldable pub crossover_function : Ea F → String
  crossover_function ea =
      if ea.crossover_function == "cxUniform"
      then (concat (
          "toolbox.register(\"mate\", tools."
          ∷ ea.crossover_function
          ∷ ", indpb="
          ∷ F.fmt_f ea.indpb
          ∷ ")\n"
          ∷ []))
      else if ea.crossover_function == "cxUniformPartialyMatched"
      then (concat (
          "toolbox.register(\"mate\", tools."
          ∷ ea.crossover_function
          ∷ ", indpb="
          ∷ F.fmt_f ea.indpb
          ∷ ")\n"
          ∷ []))
      else (concat ("toolbox.register(\"mate\", tools." ∷ ea.crossover_function ∷ ")\n" ∷ []))

  unfoldable pub call_algo : Ea F → String
  call_algo ea =
      let name = to_lower ea.algorithm in
      if name == "easimple"
      then "\tpop, logbook = algorithms.eaSimple(pop, toolbox, cxpb=cxpb, mutpb=mutpb, ngen=generations, stats=stats, halloffame=hof, verbose=True)\n"
      else if name == "eamupluslambda"
      then (concat (
          "\tmu = "
          ∷ fmt_d ea.mu
          ∷ "\n"
          ∷ "\tlambda_ = "
          ∷ fmt_d ea.lambda
          ∷ "\n"
          ∷ "\tpop, logbook = algorithms.eaMuPlusLambda(pop, toolbox, mu=mu, lambda_=lambda_, cxpb=cxpb, mutpb=mutpb, ngen=generations, stats=stats, halloffame=hof, verbose=True)\n"
          ∷ []))
      else if name == "eamucommalambda"
      then (concat (
          "\tmu = "
          ∷ fmt_d ea.mu
          ∷ "\n"
          ∷ "\tlambda_ = "
          ∷ fmt_d ea.lambda
          ∷ "\n"
          ∷ "\tpop, logbook = algorithms.eaMuCommaLambda(pop, toolbox, mu=mu, lambda_=lambda_, cxpb=cxpb, mutpb=mutpb, ngen=generations, stats=stats, halloffame=hof, verbose=True)\n"
          ∷ []))
      else if name == "eagenerateupdate"
      then (concat (
          "\tstrategy = cma.Strategy(centroid=[5.0]*"
          ∷ fmt_d ea.individual_size
          ∷ ", sigma=5.0, lambda_=20*{N})\n"
          ∷ "\ttoolbox.register(\"generate\", strategy.generate, creator.Individual)\n"
          ∷ "\ttoolbox.register(\"update\", strategy.update)\n"
          ∷ "\tpop, logbook = algorithms.eaGenerateUpdate(toolbox, ngen=generations, stats=stats, halloffame=hof, verbose=True)\n"
          ∷ []))
      else "\tpop, logbook = algorithms.eaSimple(pop, toolbox, cxpb=cxpb, mutpb=mutpb, ngen=generations, stats=stats, halloffame=hof, verbose=True)\n"
