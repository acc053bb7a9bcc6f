-- ===== src/Ea/Program.antt =====
-- `Code` of modules/ea.go: the whole program.
use runner_controller_micros.Base.{String, List, [], ◌∷◌, ◌==◌, Option, none, some, if◌then◌else◌}
use runner_controller_micros.Base.Text.{concat}
use runner_controller_micros.Base.Decimal.{fmt_d}
use runner_controller_micros.Base.Outcome.{Outcome, ok, err, panic}
use runner_controller_micros.Base.Floats.{Floats}
use runner_controller_micros.Python.{weights_tuple}
use runner_controller_micros.Ea.Config.{Ea, validate}
use runner_controller_micros.Ea.Templates.{
  imports, plots, rand_1, de_mutation_function, de_crossover_functions, differential_evolution,
}
use runner_controller_micros.Ea.Parts.{
  eval_function, register_individual, initial_generator, mutation_function, selection_function,
  crossover_function, call_algo,
}

module _ (F : Floats) where
  -- The definitions that only differential evolution has.
  unfoldable pub de_definitions : Ea F → String
  de_definitions ea =
      if ea.algorithm == "de"
      then concat (
          rand_1
          ∷ "\n\n"
          ∷ (de_mutation_function ea.mutation_function)
          ∷ "\n\n"
          ∷ de_crossover_functions
          ∷ "\n\n"
          ∷ [])
      else ""

  -- The program up to the toolbox; `evaluation` is what `evalFunction` returned.
  unfoldable pub preamble_pieces : Ea F → String → List String
  preamble_pieces ea evaluation =
      (imports
        ∷ "\n\n"
        ∷ evaluation
        ∷ "\n\n"
        ∷ de_definitions ea
        ∷ ea.custom_pop
        ∷ "\n"
        ∷ ea.custom_mutation
        ∷ "\n"
        ∷ ea.custom_selection
        ∷ "\n\n"
        ∷ [])

  unfoldable pub preamble : Ea F → String → String
  unfolding preamble_pieces
  preamble ea evaluation = concat (preamble_pieces ea evaluation)

  -- How the variation operator of two parents is registered, with the parameters of its caller.
  unfoldable pub mate_registration : Ea F → String
  mate_registration ea =
      if ea.algorithm == "de"
      then concat (
          "CR = "
          ∷ F.fmt_f ea.cross_over_rate
          ∷ "\n"
          ∷ "F = "
          ∷ F.fmt_f ea.scaling_factor
          ∷ "\n"
          ∷ "toolbox.register(\"mate\", "
          ∷ ea.crossover_function
          ∷ ", cr=CR)\n"
          ∷ [])
      else concat (crossover_function F ea ∷ "\n" ∷ [])

  -- The statements on the toolbox; `individual` is what `registerIndividual` returned.
  unfoldable pub registration_pieces : Ea F → String → List String
  registration_pieces ea individual =
      ("toolbox = base.Toolbox()\n\n"
        ∷ "creator.create('FitnessMax', base.Fitness, weights="
        ∷ weights_tuple F ea.weights
        ∷ ")\n"
        ∷ "creator.create(\"Individual\", list, fitness=creator.FitnessMax)\n\n"
        ∷ individual
        ∷ "\n"
        ∷ (initial_generator F ea)
        ∷ "\n"
        ∷ "toolbox.register(\"evaluate\", "
        ∷ ea.evaluation_function
        ∷ ")\n"
        ∷ (mutation_function F ea)
        ∷ "\n"
        ∷ mate_registration ea
        ∷ (selection_function F ea)
        ∷ "\n"
        ∷ "\ntoolbox.register(\"map\", futures.map)\n\n"
        ∷ [])

  unfoldable pub registrations : Ea F → String → String
  unfolding registration_pieces
  registrations ea individual = concat (registration_pieces ea individual)

  unfoldable pub main_loop : Ea F → String
  main_loop ea =
      if ea.algorithm == "de" then differential_evolution else concat (call_algo F ea ∷ "\n" ∷ [])

  -- The Python function `main` and its call.
  unfoldable pub main_pieces : Ea F → List String
  main_pieces ea =
      ("def main():\n"
        ∷ "\tpopulationSize = "
        ∷ fmt_d ea.population_size
        ∷ "\n"
        ∷ "\tgenerations = "
        ∷ fmt_d ea.generations
        ∷ "\n"
        ∷ "\tcxpb = "
        ∷ F.fmt_f ea.cxpb
        ∷ "\n"
        ∷ "\tmutpb = "
        ∷ F.fmt_f ea.mutpb
        ∷ "\n"
        ∷ "\tN = "
        ∷ fmt_d ea.individual_size
        ∷ "\n"
        ∷ "\n\tpop = toolbox.population(n=populationSize)\n"
        ∷ "\thof = tools.HallOfFame("
        ∷ fmt_d ea.hof_size
        ∷ ")\n"
        ∷ "\n\tstats = tools.Statistics(lambda ind: ind.fitness.values)\n"
        ∷ "\tstats.register(\"avg\", numpy.mean)\n"
        ∷ "\tstats.register(\"min\", numpy.min)\n"
        ∷ "\tstats.register(\"max\", numpy.max)\n"
        ∷ "\n"
        ∷ main_loop ea
        ∷ "\n\trootPath = os.path.dirname(os.path.abspath(__file__))\n"
        ∷ "\twith open(f\"{rootPath}/logbook.txt\", \"w\") as f:\n"
        ∷ "\t\tf.write(str(logbook))\n"
        ∷ "\n"
        ∷ "\tout_file = open(f\"{rootPath}/best.txt\", \"w\")\n"
        ∷ "\tout_file.write(f\"Best individual fitness: {hof[0].fitness.values}\\n\")\n"
        ∷ "\n"
        ∷ "\tout_file.write(f\"Best individual: {hof[0]}\\n\")\n"
        ∷ "\tout_file.close()\n"
        ∷ "\n\n"
        ∷ plots
        ∷ "\n\n"
        ∷ "if __name__ == '__main__':\n"
        ∷ "\tmain()"
        ∷ [])

  unfoldable pub main_function : Ea F → String
  unfolding main_pieces
  main_function ea = concat (main_pieces ea)

  -- `none` is the panic of `registerIndividual`.
  unfoldable pub program : Ea F → String → Option String → Outcome String
  program ea evaluation none = panic
  program ea evaluation (some individual) =
      ok (concat (preamble ea evaluation ∷ registrations ea individual ∷ main_function ea ∷ []))

  unfoldable pub write : String × Ea F → Outcome String × Ea F
  unfolding program
  write (evaluation, ea) = (program ea evaluation (register_individual F ea), ea)

  unfoldable pub after_validate : Option String × Ea F → Outcome String × Ea F
  unfolding write
  after_validate (some message, ea) = (err message, ea)
  after_validate (none, ea) = write (eval_function F ea)

  -- The program, or the error, with the receiver as the call leaves it.
  unfoldable pub code : Ea F → Outcome String × Ea F
  unfolding after_validate
  code ea = after_validate (validate F ea)
