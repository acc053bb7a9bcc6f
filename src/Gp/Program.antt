-- ===== src/Gp/Program.antt =====
-- `Code` of modules/gp.go: the whole program. Go's loop over a map takes the entries in any order,
-- so the order is a parameter.
use runner_controller_micros.Base.{String, List, [], ◌∷◌, Option, none, some}
use runner_controller_micros.Base.Text.{concat}
use runner_controller_micros.Base.Decimal.{fmt_d}
use runner_controller_micros.Base.Outcome.{Outcome, ok, err}
use runner_controller_micros.Base.Floats.{Floats}
use runner_controller_micros.Python.{weights_tuple}
use runner_controller_micros.Gp.Config.{Gp, validate}
use runner_controller_micros.Gp.Templates.{
  imports, eval_function, setup_stats, setup_logs, create_plots,
}
use runner_controller_micros.Gp.Parts.{
  add_primitives, arg_entries, rename_args, selection_function, crossover_function,
  mutation_function, bloat_control, call_algo,
}

module _ (F : Floats) where
  -- The texts that `Code` appends to its result; `entries` are those of `argDict`, in some order.
  unfoldable pub program_pieces : Gp F → List (String × String) → List String
  program_pieces gp entries =
      imports
      ∷ "\n\n"
      ∷ eval_function
      ∷ "\n\n"
      ∷ "toolbox = base.Toolbox()\n"
      ∷ "pset = gp.PrimitiveSet('MAIN', 1)\n\n"
      ∷ "def protectedDiv(left, right):\n"
      ∷ "\ttry:\n"
      ∷ "\t\treturn left / right\n"
      ∷ "\texcept ZeroDivisionError:\n"
      ∷ "\t\treturn 1\n\n"
      ∷ "def lf(x):\n"
      ∷ "\treturn 1 / (1 + numpy.exp(-x))\n\n"
      ∷ add_primitives gp.operators
      ∷ "\n\n"
      ∷ "pset.addEphemeralConstant('rand101', partial(random.randint, -1, 1))\n"
      ∷ rename_args entries
      ∷ "\n"
      ∷ "creator.create('Fitness', base.Fitness, weights="
      ∷ weights_tuple F gp.weights
      ∷ ")\n"
      ∷ "creator.create('Individual', gp.PrimitiveTree, fitness=creator.Fitness)\n\n"
      ∷ "toolbox.register('expr', gp."
      ∷ gp.expr
      ∷ ", pset=pset, min_="
      ∷ fmt_d gp.min_
      ∷ ", max_="
      ∷ fmt_d gp.max_
      ∷ ")\n"
      ∷ "toolbox.register('individual', tools."
      ∷ gp.individual_function
      ∷ ", creator.Individual, toolbox.expr)\n"
      ∷ "toolbox.register('population', tools."
      ∷ gp.population_function
      ∷ ", list, toolbox.individual)\n"
      ∷ "toolbox.register('compile', gp.compile, pset=pset)\n\n"
      ∷ "toolbox.register('evaluate', evalSymbReg, points=[x / 10.0 for x in range(-10, 10)], realFunction=\""
      ∷ gp.real_function
      ∷ "\")\n\n"
      ∷ selection_function F gp
      ∷ "\n"
      ∷ crossover_function F gp
      ∷ "\n"
      ∷ "toolbox.register('expr_mut', gp."
      ∷ gp.expr_mut
      ∷ ", min_="
      ∷ fmt_d gp.expr_mut_min
      ∷ ", max_="
      ∷ fmt_d gp.expr_mut_max
      ∷ ")\n"
      ∷ mutation_function F gp
      ∷ "\n"
      ∷ bloat_control F gp
      ∷ "\n"
      ∷ "toolbox.register('map', futures.map)\n"
      ∷ "def main():\n"
      ∷ "\trootPath = os.path.dirname(os.path.abspath(__file__))\n"
      ∷ "\trandom.seed(318)\n"
      ∷ "\tpop = toolbox.population(n="
      ∷ fmt_d gp.population_size
      ∷ ")\n"
      ∷ "\thof = tools.HallOfFame("
      ∷ fmt_d gp.hof_size
      ∷ ")\n"
      ∷ setup_stats
      ∷ "\n"
      ∷ "\tN = "
      ∷ fmt_d gp.individual_size
      ∷ "\n"
      ∷ call_algo F gp
      ∷ "\n"
      ∷ setup_logs
      ∷ "\n"
      ∷ create_plots
      ∷ "\n"
      ∷ "\n\n"
      ∷ "if __name__ == '__main__':\n"
      ∷ "\tmain()\n"
      ∷ []

  unfoldable pub program : Gp F → List (String × String) → String
  program gp entries = concat (program_pieces gp entries)

  unfoldable pub after_validate : Option String → Gp F → List (String × String) → Outcome String
  after_validate (some message) gp entries = err message
  after_validate none gp entries = ok (program gp entries)

  -- The program, or the error.
  unfoldable pub code : (List (String × String) → List (String × String)) → Gp F → Outcome String
  unfolding after_validate
  code order gp = after_validate (validate F gp) gp (order (arg_entries 0 gp.arg_names))
