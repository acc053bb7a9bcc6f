-- ===== src/Gp/Templates.antt =====
-- The parts of the generated program that do not depend on the request (modules/gp.go).
use runner_controller_micros.Base.{String, [], ◌∷◌}
use runner_controller_micros.Base.Text.{join, concat}

pub imports : String
imports =
    (join
      ("import operator" ∷ "import math" ∷ "import random" ∷ "import numpy" ∷ "import os"
        ∷ "import matplotlib.pyplot as plt" ∷ "import networkx as nx"
        ∷ "from functools import partial"
        ∷ "from deap import algorithms, base, creator, tools, gp, cma" ∷ "from scoop import futures"
        ∷ [])
      "\n")

pub eval_function : String
eval_function = concat (
    "def evalSymbReg(individual, points, realFunction):\n"
    ∷ "\t# Transform the tree expression in a callable function\n"
    ∷ "\tfunc = toolbox.compile(expr=individual)\n"
    ∷ "\t# Evaluate the mean squared error between the expression\n"
    ∷ "\t# and the real function : x**4 + x**3 + x**2 + x\n"
    ∷ "\tsqerrors= ((func(x) - eval(realFunction))**2 for x in points)\n"
    ∷ "\treturn (math.fsum(sqerrors) / len(points),)\n\n" ∷ [])

pub setup_stats : String
setup_stats = concat (
    "\tstats_fit = tools.Statistics(lambda ind: ind.fitness.values)\n"
    ∷ "\tstats_size = tools.Statistics(len)\n"
    ∷ "\tmstats = tools.MultiStatistics(fitness=stats_fit, size=stats_size)\n"
    ∷ "\tmstats.register('avg', numpy.mean)\n" ∷ "\tmstats.register('std', numpy.std)\n"
    ∷ "\tmstats.register('min', numpy.min)\n" ∷ "\tmstats.register('max', numpy.max)\n" ∷ [])

pub setup_logs : String
setup_logs = concat (
    "\twith open(f\"{rootPath}/logbook.txt\", \"w\") as f:\n" ∷ "\t\tf.write(str(logbook))\n" ∷ "\n"
    ∷ "\tout_file = open(f\"{rootPath}/best.txt\", \"w\")\n"
    ∷ "\tout_file.write(f\"Best individual fitness: {hof[0].fitness.values}\\n\")\n"
    ∷ "\tout_file.close()\n" ∷ [])

pub create_plots : String
create_plots = concat (
    "\n\texpr = hof[0]\n" ∷ "\tnodes, edges, labels = gp.graph(expr)\n" ∷ "\tg = nx.Graph()\n"
    ∷ "\tg.add_nodes_from(nodes)\n" ∷ "\tg.add_edges_from(edges)\n"
    ∷ "\tpos = nx.nx_agraph.graphviz_layout(g, prog='dot')\n" ∷ "\n\tplt.figure(figsize=(7,7))\n"
    ∷ "\tnx.draw_networkx_nodes(g, pos, node_size=900, node_color='skyblue')\n"
    ∷ "\tnx.draw_networkx_edges(g, pos, edge_color='gray')\n"
    ∷ "\tnx.draw_networkx_labels(g, pos, labels, font_color='black')\n" ∷ "\tplt.axis('off')\n"
    ∷ "\tplt.savefig(f'{rootPath}/graph.png', dpi=300)\n" ∷ "\tplt.close()\n" ∷ [])
