-- ===== src/Pso/Program.antt =====
-- `Code` of modules/pso.go: the whole program.
use runner_controller_micros.Base.{String, List, [], ◌∷◌, Option, none, some}
use runner_controller_micros.Base.Text.{join, concat}
use runner_controller_micros.Base.Decimal.{fmt_d}
use runner_controller_micros.Base.Outcome.{Outcome, ok, err}
use runner_controller_micros.Base.Floats.{Floats}
use runner_controller_micros.Python.{weights_tuple}
use runner_controller_micros.Pso.Config.{Pso, validate}
use runner_controller_micros.Pso.Templates.{
  imports, generate_and_update_particle, setup_plot, the_pso_algo,
}

module _ (F : Floats) where
  unfoldable pub particle_registration : Pso F → String
  particle_registration pso = concat (
      "toolbox.register('particle', generate, size="
      ∷ fmt_d pso.dimensions
      ∷ ", pmin="
      ∷ F.fmt_f pso.min_position
      ∷ ", pmax="
      ∷ F.fmt_f pso.max_position
      ∷ ", smin="
      ∷ F.fmt_f pso.min_speed
      ∷ ", smax="
      ∷ F.fmt_f pso.max_speed
      ∷ ")"
      ∷ [])

  unfoldable pub update_registration : Pso F → String
  update_registration pso = concat (
      "toolbox.register('update', updateParticle, phi1="
      ∷ F.fmt_f pso.phi1
      ∷ ", phi2="
      ∷ F.fmt_f pso.phi2
      ∷ ")"
      ∷ [])

  unfoldable pub evaluate_registration : Pso F → String
  evaluate_registration pso =
      concat ("toolbox.register('evaluate', benchmarks." ∷ pso.benchmark ∷ ")" ∷ [])

  unfoldable pub toolbox : Pso F → String
  toolbox pso =
      join
        ("toolbox = base.Toolbox()"
          ∷ particle_registration pso
          ∷ "toolbox.register('population', tools.initRepeat, list, toolbox.particle)"
          ∷ update_registration pso
          ∷ evaluate_registration pso
          ∷ [])
        "\n"

  unfoldable pub main_start : Pso F → String
  main_start pso =
      join
        ("def main():"
          ∷ "\trootPath = os.path.dirname(os.path.abspath(__file__))"
          ∷ concat ("\tpop = toolbox.population(n=" ∷ fmt_d pso.population_size ∷ ")" ∷ [])
          ∷ "\tstats = tools.Statistics(lambda ind: ind.fitness.values)"
          ∷ "\tstats.register('avg', numpy.mean)"
          ∷ "\tstats.register('std', numpy.std)"
          ∷ "\tstats.register('min', numpy.min)"
          ∷ "\tstats.register('max', numpy.max)"
          ∷ "\n\tlogbook = tools.Logbook()"
          ∷ "\tlogbook.header = ['gen', 'evals'] + stats.fields"
          ∷ "\n\tbest = None"
          ∷ concat ("\tGEN = " ∷ fmt_d pso.generations ∷ [])
          ∷ [])
        "\n"

  abbrev pub main_end : String
  main_end =
      join
        ("\tani = animation.FuncAnimation(fig, update, frames=GEN, blit=True, repeat=False)"
          ∷ "\tani.save(f'{rootPath}/pso_animation.gif', writer='pillow', fps=10)"
          ∷ "\t# Save the position of the best particle"
          ∷ "\tout_file = open(f'{rootPath}/best.txt', 'w')"
          ∷ "\tout_file.write(f'Best individual fitness: {best.fitness.values}\\n')"
          ∷ "\tout_file.write(f'Best individual position: {best}\\n')" ∷ "\tout_file.close()"
          ∷ "\twith open(f'{rootPath}/logbook.txt', 'w') as f:" ∷ "\t\tf.write(str(logbook))"
          ∷ "if __name__ == '__main__':" ∷ "\tmain()" ∷ [])
        "\n"

  -- The texts that `Code` appends to its result, in their order.
  unfoldable pub program_pieces : Pso F → List String
  program_pieces pso =
      imports
      ∷ "\n\n"
      ∷ "creator.create('FitnessMax', base.Fitness, weights="
      ∷ weights_tuple F pso.weights
      ∷ ")\n"
      ∷ "creator.create('Particle', numpy.ndarray, fitness=creator.FitnessMax, speed=list, smin=None, smax=None, best=None)\n\n"
      ∷ generate_and_update_particle
      ∷ "\n"
      ∷ toolbox pso
      ∷ "\n"
      ∷ main_start pso
      ∷ setup_plot
      ∷ "\n"
      ∷ the_pso_algo
      ∷ "\n"
      ∷ main_end
      ∷ []

  unfoldable pub program : Pso F → String
  program pso = concat (program_pieces pso)

  unfoldable pub after_validate : Option String → Pso F → Outcome String
  after_validate (some message) pso = err message
  after_validate none pso = ok (program pso)

  -- The program, or the error.
  unfoldable pub code : Pso F → Outcome String
  unfolding after_validate
  code pso = after_validate (validate F pso) pso
