-- ===== src/Ea/Templates.antt =====
-- The parts of the generated program that do not depend on the request (modules/ea.go): imports,
-- the plots, the two crossovers and the loop of differential evolution, and the seven mutations.
use runner_controller_micros.Base.{String, [], ◌∷◌, ◌==◌, if◌then◌else◌}
use runner_controller_micros.Base.Text.{join, concat}

pub imports : String
imports =
    join
      ("import random, os" ∷ "from deap import base, creator, tools, algorithms" ∷ "import numpy"
        ∷ "import matplotlib.pyplot as plt" ∷ "from functools import reduce"
        ∷ "from scoop import futures" ∷ "from deap import benchmarks"
        ∷ "from itertools import chain" ∷ [])
      "\n"

pub de_crossover_functions : String
de_crossover_functions =
    join
      ("def cxBinomial(x, y, cr):" ∷ "\tsize = len(x)" ∷ "\tindex = random.randrange(size)"
        ∷ "\tfor i in range(size):" ∷ "\t\tif i == index or random.random() < cr:"
        ∷ "\t\t\tx[i] = y[i]" ∷ "\treturn x" ∷ "\n" ∷ "def cxExponential(x, y, cr):"
        ∷ "\tsize = len(x)" ∷ "\tindex = random.randrange(size)"
        ∷ "\tfor i in chain(range(index, size), range(0, index)):" ∷ "\t\tx[i] = y[i]"
        ∷ "\t\tif random.random() < cr:" ∷ "\t\t\tbreak" ∷ "\treturn x" ∷ [])
      "\n"

pub differential_evolution : String
differential_evolution =
    join
      ("\n" ∷ "logbook = tools.Logbook()"
        ∷ "logbook.header = 'gen', 'evals', 'std', 'min', 'avg', 'max'"
        ∷ "fitnesses = toolbox.map(toolbox.evaluate, pop)" ∷ "for ind, fit in zip(pop, fitnesses):"
        ∷ "\tind.fitness.values = fit" ∷ "record = stats.compile(pop)"
        ∷ "logbook.record(gen=0, evals=len(pop), **record)" ∷ "print(logbook.stream)"
        ∷ "for g in range(1, generations):" ∷ "\tchildren = []" ∷ "\tfor agent in pop:"
        ∷ "\t\ta, b, c = [toolbox.clone(ind) for ind in toolbox.select(pop, 3)]"
        ∷ "\t\tx = toolbox.clone(agent)" ∷ "\t\ty = toolbox.clone(agent)"
        ∷ "\t\ty = toolbox.mutate(y, a, b, c)" ∷ "\t\tz = toolbox.mate(x, y)"
        ∷ "\t\tdel z.fitness.values" ∷ "\t\tchildren.append(z)" ∷ "\n"
        ∷ "\tfitnesses = toolbox.map(toolbox.evaluate, children)"
        ∷ "\tfor (i, ind), fit in zip(enumerate(children), fitnesses):"
        ∷ "\t\tind.fitness.values = fit" ∷ "\t\tif ind.fitness > pop[i].fitness:"
        ∷ "\t\t\tpop[i] = ind" ∷ "\n" ∷ "\thof.update(pop)" ∷ "\trecord = stats.compile(pop)"
        ∷ "\tlogbook.record(gen=g, evals=len(pop), **record)" ∷ "\tprint(logbook.stream)" ∷ [])
      "\n\t"

pub plots : String
plots = concat (
    "\n\n" ∷ "\tgen = logbook.select(\"gen\")\n" ∷ "\tavg = logbook.select(\"avg\")\n"
    ∷ "\tmin_ = logbook.select(\"min\")\n" ∷ "\tmax_ = logbook.select(\"max\")\n\n"
    ∷ "\tplt.plot(gen, avg, label=\"average\")\n" ∷ "\tplt.plot(gen, min_, label=\"minimum\")\n"
    ∷ "\tplt.plot(gen, max_, label=\"maximum\")\n" ∷ "\tplt.xlabel(\"Generation\")\n"
    ∷ "\tplt.ylabel(\"Fitness\")\n" ∷ "\tplt.legend(loc=\"lower right\")\n"
    ∷ "\tplt.savefig(f\"{rootPath}/fitness_plot.png\", dpi=300)\n" ∷ "\tplt.close()\n" ∷ "\n\n"
    ∷ "\tavg_fitness = logbook.select(\"avg\")\n"
    ∷ "\tfitness_diff = [avg_fitness[i] - avg_fitness[i-1] for i in range(1, len(avg_fitness))]\n"
    ∷ "\tplt.plot(gen[1:], fitness_diff, label=\"Fitness Change\", color=\"purple\")\n"
    ∷ "\tplt.xlabel(\"Generation\")\n" ∷ "\tplt.ylabel(\"Fitness Change\")\n"
    ∷ "\tplt.title(\"Effect of Mutation and Crossover on Fitness\")\n" ∷ "\tplt.legend()\n"
    ∷ "\tplt.savefig(f\"{rootPath}/mutation_crossover_effect.png\", dpi=300)\n" ∷ "\tplt.close()\n"
    ∷ [])

abbrev pub rand_1 : String
rand_1 =
    join
      ("def mutDE(y, a, b, c, f):" ∷ "\tsize = len(y)" ∷ "\tfor i in range(len(y)):"
        ∷ "\t\ty[i] = a[i] + f*(b[i]-c[i])" ∷ "\treturn y" ∷ [])
      "\n"

abbrev pub rand_2 : String
rand_2 =
    join
      ("def mutDE_rand2(y, a, b, c, d, e, f):" ∷ "\tsize = len(y)" ∷ "\tfor i in range(size):"
        ∷ "\t\ty[i] = a[i] + f * (b[i] - c[i]) + f * (d[i] - e[i])" ∷ "\treturn y" ∷ [])
      "\n"

abbrev pub best_1 : String
best_1 =
    join
      ("def mutDE_best1(y, best, b, c, f):" ∷ "\tsize = len(y)" ∷ "\tfor i in range(size):"
        ∷ "\t\ty[i] = best[i] + f * (b[i] - c[i])" ∷ "\treturn y" ∷ [])
      "\n"

abbrev pub best_2 : String
best_2 =
    join
      ("def mutDE_best2(y, best, b, c, d, e, f):" ∷ "\tsize = len(y)" ∷ "\tfor i in range(size):"
        ∷ "\t\ty[i] = best[i] + f * (b[i] - c[i]) + f * (d[i] - e[i])" ∷ "\treturn y" ∷ [])
      "\n"

abbrev pub current_to_best_1 : String
current_to_best_1 =
    join
      ("def mutDE_current_to_best1(y, x, best, b, c, f):" ∷ "\tsize = len(y)"
        ∷ "\tfor i in range(size):" ∷ "\t\ty[i] = x[i] + f * (best[i] - x[i]) + f * (b[i] - c[i])"
        ∷ "\treturn y" ∷ [])
      "\n"

abbrev pub current_to_rand_1 : String
current_to_rand_1 =
    join
      ("def mutDE_current_to_rand1(y, x, a, b, c, f):" ∷ "\tsize = len(y)"
        ∷ "\tK = random.uniform(0, 1)  # Random number in [0, 1]" ∷ "\tfor i in range(size):"
        ∷ "\t\ty[i] = x[i] + K * (a[i] - x[i]) + f * (b[i] - c[i])" ∷ "\treturn y" ∷ [])
      "\n"

abbrev pub rand_to_best_1 : String
rand_to_best_1 =
    join
      ("def mutDE_rand_to_best1(y, a, best, b, c, f):" ∷ "\tsize = len(y)"
        ∷ "\tfor i in range(size):" ∷ "\t\ty[i] = a[i] + f * (best[i] - a[i]) + f * (b[i] - c[i])"
        ∷ "\treturn y" ∷ [])
      "\n"

-- `deMutationFunction`, by the name in `MutationFunction`
pub de_mutation_function : String → String
de_mutation_function name =
    if name == "DE/rand/1"
    then rand_1
    else if name == "DE/rand/2"
    then rand_2
    else if name == "DE/best/1"
    then best_1
    else if name == "DE/best/2"
    then best_2
    else if name == "DE/current-to-best/1"
    then current_to_best_1
    else if name == "DE/current-to-rand/1"
    then current_to_rand_1
    else if name == "DE/rand-to-best/1"
    then rand_to_best_1
    else rand_1
