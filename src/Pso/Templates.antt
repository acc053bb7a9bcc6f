-- ===== src/Pso/Templates.antt =====
-- The parts of the generated program that do not depend on the request (modules/pso.go).
use runner_controller_micros.Base.{String, [], ◌∷◌}
use runner_controller_micros.Base.Text.{join}

-- `imports`
pub imports : String
imports =
    join
      ("import math, os" ∷ "import numpy" ∷ "from deap import base, benchmarks, creator, tools"
        ∷ "import matplotlib.pyplot as plt" ∷ "import matplotlib.animation as animation" ∷ [])
      "\n"

-- `generateAndUpdateParticle`
pub generate_and_update_particle : String
generate_and_update_particle =
    join
      ("def generate(size, pmin, pmax, smin, smax):"
        ∷ "\tpart = creator.Particle(numpy.random.uniform(pmin, pmax, size))"
        ∷ "\tpart.speed = numpy.random.uniform(smin, smax, size)" ∷ "\tpart.smin = smin"
        ∷ "\tpart.smax = smax" ∷ "\treturn part\n" ∷ "def updateParticle(part, best, phi1, phi2):"
        ∷ "\tu1 = numpy.random.uniform(0, phi1, len(part))"
        ∷ "\tu2 = numpy.random.uniform(0, phi2, len(part))" ∷ "\tv_u1 = u1 * (part.best - part)"
        ∷ "\tv_u2 = u2 * (best - part)" ∷ "\tpart.speed += v_u1 + v_u2"
        ∷ "\tfor i, speed in enumerate(part.speed):" ∷ "\t\tif abs(speed) < part.smin:"
        ∷ "\t\t\tpart.speed[i] = math.copysign(part.smin, speed)"
        ∷ "\t\telif abs(speed) > part.smax:"
        ∷ "\t\t\tpart.speed[i] = math.copysign(part.smax, speed)" ∷ "\tpart += part.speed" ∷ [])
      "\n"

-- `setupPlot`
pub setup_plot : String
setup_plot =
    join
      ("\n\tfig, ax = plt.subplots()"
        ∷ "\t# Dynamically determine plot space based on initial particle positions."
        ∷ "\tall_x = [p[0] for p in pop]" ∷ "\tall_y = [p[1] for p in pop]" ∷ "\tx_min = min(all_x)"
        ∷ "\tx_max = max(all_x)" ∷ "\ty_min = min(all_y)" ∷ "\ty_max = max(all_y)"
        ∷ "\t# Add a buffer to the plot limits to ensure particles don't get cut off"
        ∷ "\tx_buffer = (x_max - x_min) * 0.5" ∷ "\ty_buffer = (y_max - y_min) * 0.5"
        ∷ "\tx_min -= x_buffer" ∷ "\tx_max += x_buffer" ∷ "\ty_min -= y_buffer"
        ∷ "\ty_max += y_buffer" ∷ "\tax.set_xlim(x_min, x_max)" ∷ "\tax.set_ylim(y_min, y_max)"
        ∷ "\tscat = ax.scatter([p[0] for p in pop], [p[1] for p in pop])  # Initial scatter plot"
        ∷ "\tbest_scat = ax.scatter([], [], color='red', marker='*', s=100) # Scatter plot for the best particle"
        ∷ "\tplt.xlabel('x')" ∷ "\tplt.ylabel('y')" ∷ "\tplt.title('Particle Swarm Optimization')"
        ∷ "\tgeneration_text = ax.text(0.02, 0.95, '', transform=ax.transAxes)  # Text to display generation"
        ∷ [])
      "\n"

-- `thePSOAlgo`
pub the_pso_algo : String
the_pso_algo =
    join
      ("\tdef update(frame):"
        ∷ "\tnonlocal best, pop, x_min, x_max, y_min, y_max  # Access the pop variable and plot limits"
        ∷ "\tfor part in pop:" ∷ "\t\tpart.fitness.values = toolbox.evaluate(part)"
        ∷ "\t\tif part.best is None or part.best.fitness < part.fitness:"
        ∷ "\t\t\tpart.best = creator.Particle(part)"
        ∷ "\t\t\tpart.best.fitness.values = part.fitness.values"
        ∷ "\t\tif best is None or best.fitness < part.fitness:"
        ∷ "\t\t\tbest = creator.Particle(part)" ∷ "\t\t\tbest.fitness.values = part.fitness.values"
        ∷ "\tfor part in pop:" ∷ "\t\ttoolbox.update(part, best)"
        ∷ "\t# Update scatter plot positions"
        ∷ "\tscat.set_offsets(numpy.array([[p[0], p[1]] for p in pop]))"
        ∷ "\t# Update best particle position"
        ∷ "\tbest_scat.set_offsets(numpy.array([[best[0], best[1]]]))"
        ∷ "\t# Update generation text" ∷ "\tgeneration_text.set_text(f'Generation: {frame}')"
        ∷ "\t# Dynamically adjust the plot limits based on particle positions"
        ∷ "\tall_x = [p[0] for p in pop]" ∷ "\tall_y = [p[1] for p in pop]"
        ∷ "\tcurr_x_min = min(all_x)" ∷ "\tcurr_x_max = max(all_x)" ∷ "\tcurr_y_min = min(all_y)"
        ∷ "\tcurr_y_max = max(all_y)" ∷ "\tx_buffer = (curr_x_max - curr_x_min) * 0.5"
        ∷ "\ty_buffer = (curr_y_max - curr_y_min) * 0.5" ∷ "\tcurr_x_min -= x_buffer"
        ∷ "\tcurr_x_max += x_buffer" ∷ "\tcurr_y_min -= y_buffer" ∷ "\tcurr_y_max += y_buffer"
        ∷ "\t# Expand the plot space if particles are going out of range, but never shrink it."
        ∷ "\tif curr_x_min < x_min:" ∷ "\t\tx_min = curr_x_min" ∷ "\tif curr_x_max > x_max:"
        ∷ "\t\tx_max = curr_x_max" ∷ "\tif curr_y_min < y_min:" ∷ "\t\ty_min = curr_y_min"
        ∷ "\tif curr_y_max > y_max:" ∷ "\t\ty_max = curr_y_max" ∷ "\tax.set_xlim(x_min, x_max)"
        ∷ "\tax.set_ylim(y_min, y_max)"
        ∷ "\t# Gather all the fitnesses in one list and print the stats"
        ∷ "\tlogbook.record(gen=frame, evals=len(pop), **stats.compile(pop))"
        ∷ "\tprint(logbook.stream)" ∷ "\treturn scat, best_scat, generation_text" ∷ [])
      "\n\t"
