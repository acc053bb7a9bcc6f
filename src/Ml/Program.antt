-- ===== src/Ml/Program.antt =====
-- The generated program (modules/ml.go): one function per method, and `Code`.
use runner_controller_micros.Base.{String, List, [], ◌∷◌, ◌==◌, Option, none, some, if◌then◌else◌}
use runner_controller_micros.Base.Text.{join, concat}
use runner_controller_micros.Base.Decimal.{fmt_d}
use runner_controller_micros.Base.Outcome.{Outcome, ok, err}
use runner_controller_micros.Base.Floats.{Floats}
use runner_controller_micros.Python.{weights_tuple}
use runner_controller_micros.Ml.Config.{Eaml, validate}

pub create_plots : String
create_plots =
    (join
      ("\n\n" ∷ "\tgen = logbook.select(\"gen\")" ∷ "\tavg = logbook.select(\"avg\")"
        ∷ "\tmin_ = logbook.select(\"min\")" ∷ "\tmax_ = logbook.select(\"max\")\n"
        ∷ "\twith open(f\"{rootPath}/logbook.txt\", \"w\") as f:" ∷ "\t\tf.write(str(logbook))"
        ∷ "\n" ∷ "\tplt.plot(gen, avg, label=\"average\")"
        ∷ "\tplt.plot(gen, min_, label=\"minimum\")" ∷ "\tplt.plot(gen, max_, label=\"maximum\")"
        ∷ "\tplt.xlabel(\"Generation\")" ∷ "\tplt.ylabel(\"Fitness\")"
        ∷ "\tplt.legend(loc=\"lower right\")"
        ∷ "\tplt.savefig(f\"{rootPath}/fitness_plot.png\", dpi=300)" ∷ "\tplt.close()" ∷ [])
      "\n")

module _ (F : Floats) where
  unfoldable pub imports : Eaml F → String
  imports ml =
      (join
        ("# DEAP imports" ∷ "import random, os"
          ∷ "from deap import base, creator, tools, algorithms" ∷ "import numpy"
          ∷ "import matplotlib.pyplot as plt" ∷ "from functools import reduce"
          ∷ "from scoop import futures" ∷ "import pandas as pd" ∷ "import warnings"
          ∷ "warnings.filterwarnings(\"ignore\")" ∷ "# ML imports" ∷ ml.ml_import_code_string ∷ [])
        "\n")

  unfoldable pub google_drive_download_func : Eaml F → String
  google_drive_download_func ml =
      (join
        ("def download_csv_from_google_drive_share_link(url):"
          ∷ "\tfile_id = url.split(\"/\")[-2]"
          ∷ "\tdwn_url = \"https://drive.google.com/uc?export=download&id=\" + file_id"
          ∷ (concat ("\treturn pd.read_csv(dwn_url, sep=\"" ∷ ml.sep ∷ "\")\n" ∷ []))
          ∷ [])
        "\n")

  unfoldable pub selection_function : Eaml F → String
  selection_function ml =
      if ml.selection_function == "selTournament"
      then concat (
          "toolbox.register('select', tools."
          ∷ ml.selection_function
          ∷ ", tournsize="
          ∷ fmt_d ml.tournament_size
          ∷ ")\n"
          ∷ [])
      else concat ("toolbox.register('select', tools." ∷ ml.selection_function ∷ ")\n" ∷ [])

  unfoldable pub call_algo : Eaml F → String
  call_algo ml =
      if ml.algorithm == "eaSimple"
      then "\tpop, logbook = algorithms.eaSimple(pop, toolbox, cxpb=cxpb, mutpb=mutpb, ngen=generations, stats=stats, halloffame=hof, verbose=True)\n"
      else if ml.algorithm == "eaMuPlusLambda"
      then concat (
          "\tmu = "
          ∷ fmt_d ml.mu
          ∷ "\n"
          ∷ "\tlambda_ = "
          ∷ fmt_d ml.lambda
          ∷ "\n"
          ∷ "\tpop, logbook = algorithms.eaMuPlusLambda(pop, toolbox, mu=mu, lambda_=lambda_, cxpb=cxpb, mutpb=mutpb, ngen=generations, stats=stats, halloffame=hof, verbose=True)\n"
          ∷ [])
      else if ml.algorithm == "eaMuCommaLambda"
      then concat (
          "\tmu = "
          ∷ fmt_d ml.mu
          ∷ "\n"
          ∷ "\tlambda_ = "
          ∷ fmt_d ml.lambda
          ∷ "\n"
          ∷ "\tpop, logbook = algorithms.eaMuCommaLambda(pop, toolbox, mu=mu, lambda_=lambda_, cxpb=cxpb, mutpb=mutpb, ngen=generations, stats=stats, halloffame=hof, verbose=True)\n"
          ∷ [])
      else if ml.algorithm == "eaGenerateUpdate"
      then concat (
          "\tnumpy.random.seed(128)\n"
          ∷ "\tstrategy = cma.Strategy(centroid=[5.0]*len(X.columns), sigma=5.0, lambda_="
          ∷ fmt_d ml.lambda
          ∷ "*len(X.columns))\n"
          ∷ "\ttoolbox.register(\"generate\", strategy.generate, creator.Individual)\n"
          ∷ "\ttoolbox.register(\"update\", strategy.update)\n"
          ∷ "\tpop, logbook = algorithms.eaGenerateUpdate(toolbox, ngen=generations, stats=stats, halloffame=hof, verbose=True)\n"
          ∷ [])
      else ""

  unfoldable pub main_start : Eaml F → String
  main_start ml =
      (join
        ("def main():"
          ∷ "\trootPath = os.path.dirname(os.path.abspath(__file__))"
          ∷ (concat ("\turl = \"" ∷ ml.google_drive_url ∷ "\"" ∷ []))
          ∷ "\tdf = download_csv_from_google_drive_share_link(url)"
          ∷ (concat ("\ttarget = \"" ∷ ml.target_column_name ∷ "\"" ∷ []))
          ∷ "\tX = df.drop(target, axis=1)"
          ∷ "\ty = df[target]"
          ∷ "\taccuracy = mlEvalFunction([1 for _ in range(len(X.columns))], X, y)"
          ∷ (concat (
              "\tcreator.create(\"FitnessMax\", base.Fitness, weights="
              ∷ weights_tuple F ml.weights
              ∷ ")"
              ∷ []))
          ∷ "\tcreator.create(\"Individual\", list, fitness=creator.FitnessMax)"
          ∷ "\ttoolbox.register(\"attr\", random.randint, 0, 1)"
          ∷ [])
        "\n")

  -- The texts that `Code` appends to its result, in their order.
  unfoldable pub program_pieces : Eaml F → List String
  program_pieces ml =
      imports ml
      ∷ "\n"
      ∷ google_drive_download_func ml
      ∷ "\n"
      ∷ ml.ml_eval_function_code_string
      ∷ "\n"
      ∷ "toolbox = base.Toolbox()\n\n"
      ∷ "toolbox.register(\"mate\", tools."
      ∷ ml.crossover_function
      ∷ ")\n"
      ∷ "toolbox.register(\"mutate\", tools."
      ∷ ml.mutation_function
      ∷ ", indpb="
      ∷ F.fmt_v ml.indpb
      ∷ ")\n"
      ∷ selection_function ml
      ∷ "\n"
      ∷ "\ntoolbox.register(\"map\", futures.map)\n\n"
      ∷ main_start ml
      ∷ "\n"
      ∷ "\ttoolbox.register(\"individual\", tools.initRepeat, creator.Individual, toolbox.attr, n=len(X.columns))\n"
      ∷ "\ttoolbox.register(\"population\", tools.initRepeat, list, toolbox.individual)\n"
      ∷ "\ttoolbox.register(\"evaluate\", mlEvalFunction, X=X, y=y)\n"
      ∷ "\tpopulationSize = "
      ∷ fmt_d ml.population_size
      ∷ "\n"
      ∷ "\tgenerations = "
      ∷ fmt_d ml.generations
      ∷ "\n"
      ∷ "\tcxpb = "
      ∷ F.fmt_v ml.cxpb
      ∷ "\n"
      ∷ "\tmutpb = "
      ∷ F.fmt_v ml.mutpb
      ∷ "\n"
      ∷ "\tN = len(X.columns)\n"
      ∷ "\thofSize = "
      ∷ fmt_d ml.hof_size
      ∷ "\n"
      ∷ "\n\tpop = toolbox.population(n=populationSize)\n"
      ∷ "\thof = tools.HallOfFame(hofSize)\n"
      ∷ "\n\tstats = tools.Statistics(lambda ind: ind.fitness.values)\n"
      ∷ "\tstats.register(\"avg\", numpy.mean)\n"
      ∷ "\tstats.register(\"min\", numpy.min)\n"
      ∷ "\tstats.register(\"max\", numpy.max)\n"
      ∷ call_algo ml
      ∷ "\tout_file = open(f\"{rootPath}/best.txt\", \"w\")\n"
      ∷ "\tout_file.write(f\"Before applying EA: {accuracy}\\n\")\n"
      ∷ "\tout_file.write(f\"Best individual is:\\n{hof[0]}\\nwith fitness: {hof[0].fitness}\\n\")\n"
      ∷ "\tbest_columns = [i for i in range(len(hof[0])) if hof[0][i] == 1]\n"
      ∷ "\tbest_column_names = X.columns[best_columns]\n"
      ∷ "\tout_file.write(f\"\\nBest individual columns:\\n{best_column_names.values}\")\n"
      ∷ "\tout_file.close()\n"
      ∷ create_plots
      ∷ "\n\n"
      ∷ "if __name__ == '__main__':\n"
      ∷ "\tmain()\n"
      ∷ []

  unfoldable pub program : Eaml F → String
  program ml = concat (program_pieces ml)

  unfoldable pub after_validate : Option String → Eaml F → Outcome String
  after_validate (some message) ml = err message
  after_validate none ml = ok (program ml)

  -- The program, or the error.
  unfoldable pub code : Eaml F → Outcome String
  unfolding after_validate
  code ml = after_validate (validate F ml) ml
