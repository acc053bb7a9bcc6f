-- ===== src/Gp/Parts.antt =====
-- The parts of the generated program that depend on the request (modules/gp.go): one function per
-- method.
use runner_controller_micros.Base.{
  ℕ, suc, String, ◌<>◌, ◌==◌, List, [], ◌∷◌, map, ltb, if◌then◌else◌,
}
use runner_controller_micros.Base.Text.{concat, drop_last, byte_length}
use runner_controller_micros.Base.Int.{pos}
use runner_controller_micros.Base.Decimal.{fmt_d}
use runner_controller_micros.Base.Floats.{Floats}
use runner_controller_micros.Gp.Config.{Gp}

-- The `code` and the `arity` of an operator, as `%s` and `%d` print them; those of an operator that
-- the table does not have are nil.
abbrev pub primitive : String → String × String
primitive operator =
    if operator == "add"
    then ("operator.add", "2")
    else if operator == "sub"
    then ("operator.sub", "2")
    else if operator == "mul"
    then ("operator.mul", "2")
    else if operator == "div"
    then ("protectedDiv", "2")
    else if operator == "neg"
    then ("operator.neg", "1")
    else if operator == "cos"
    then ("math.cos", "1")
    else if operator == "sin"
    then ("math.sin", "1")
    else if operator == "lf"
    then ("lf", "1")
    else ("%!s(<nil>)", "%!d(<nil>)")

abbrev pub primitive_line : String × String → String
primitive_line (code, arity) = concat ("pset.addPrimitive(" ∷ code ∷ ", " ∷ arity ∷ ")\n" ∷ [])

-- `addPrimitivesToPSET`
unfoldable pub add_primitives : List String → String
add_primitives operators = concat (map (λ o. primitive_line (primitive o)) operators)

-- The entries of `argDict`, from the index `i` on.
unfoldable pub arg_entries : ℕ → List String → List (String × String)
arg_entries i [] = []
arg_entries i (name ∷ names) = ("ARG" <> fmt_d (pos i), name) ∷ arg_entries (suc i) names

abbrev pub arg_text : String × String → String
arg_text (k, v) = concat ("'" ∷ k ∷ "': '" ∷ v ∷ "', " ∷ [])

-- The last comma and space are taken off.
unfoldable pub trimmed : String → String
trimmed s = if ltb 2 (byte_length s) then drop_last (drop_last s) else s

-- `renameArgs`, for the entries in the order in which the loop over the map meets them.
unfoldable pub rename_args : List (String × String) → String
unfolding trimmed
rename_args entries = concat (
    "arg_dict = {"
    ∷ trimmed (concat (map arg_text entries))
    ∷ "}\n"
    ∷ "pset.renameArguments(**arg_dict)\n\n"
    ∷ [])

module _ (F : Floats) where
  unfoldable pub selection_function : Gp F → String
  selection_function gp =
      if gp.selection_function == "selTournament"
      then concat (
          "toolbox.register('select', tools."
          ∷ gp.selection_function
          ∷ ", tournsize="
          ∷ fmt_d gp.tournament_size
          ∷ ")\n"
          ∷ [])
      else concat ("toolbox.register('select', tools." ∷ gp.selection_function ∷ ")\n" ∷ [])

  unfoldable pub crossover_function : Gp F → String
  crossover_function gp =
      if gp.crossover_function == "cxOnePoint"
      then "toolbox.register('mate', gp.cxOnePoint)\n"
      else if gp.crossover_function == "cxOnePointLeafBiased"
      then concat (
          "toolbox.register('mate', gp.cxOnePointLeafBiased, termpb="
          ∷ F.fmt_v gp.terminal_prob
          ∷ ")\n"
          ∷ [])
      else if gp.crossover_function == "cxSemantic"
      then "toolbox.register('mate', gp.cxSemantic, gen_func=gp.genFull, pset=pset)\n"
      else "toolbox.register('mate', gp.cxOnePoint)\n"

  unfoldable pub mutation_function : Gp F → String
  mutation_function gp =
      if gp.mutation_function == "mutUniform"
      then "toolbox.register('mutate', gp.mutUniform, expr=toolbox.expr_mut, pset=pset)\n"
      else if gp.mutation_function == "mutShrink"
      then "toolbox.register('mutate', gp.mutShrink)\n"
      else if gp.mutation_function == "mutNodeReplacement"
      then "toolbox.register('mutate', gp.mutNodeReplacement, pset=pset)\n"
      else if gp.mutation_function == "mutInsert"
      then "toolbox.register('mutate', gp.mutInsert, pset=pset)\n"
      else if gp.mutation_function == "mutEphemeral"
      then concat
          ("toolbox.register('mutate', gp.mutEphemeral, mode='" ∷ gp.mutation_mode ∷ "')\n" ∷ [])
      else if gp.mutation_function == "mutSemantic"
      then "toolbox.register('mutate', gp.mutSemantic, gen_func=gp.genFull, pset=pset)\n"
      else "toolbox.register('mutate', gp.mutUniform, expr=toolbox.expr_mut, pset=pset)\n"

  unfoldable pub bloat_control : Gp F → String
  bloat_control gp = concat (
      "toolbox.decorate('mate', gp.staticLimit(key=operator.attrgetter('height'), max_value="
      ∷ fmt_d gp.mate_height
      ∷ "))\n"
      ∷ "toolbox.decorate('mutate', gp.staticLimit(key=operator.attrgetter('height'), max_value="
      ∷ fmt_d gp.mut_height
      ∷ "))\n"
      ∷ [])

  unfoldable pub call_algo : Gp F → String
  call_algo gp =
      if gp.algorithm == "eaSimple"
      then concat (
          "\tpop, logbook = algorithms."
          ∷ gp.algorithm
          ∷ "(pop, toolbox, cxpb="
          ∷ F.fmt_v gp.cxpb
          ∷ ", mutpb="
          ∷ F.fmt_v gp.mutpb
          ∷ ", ngen="
          ∷ fmt_d gp.generations
          ∷ ", stats=mstats, halloffame=hof, verbose=True)\n"
          ∷ [])
      else if gp.algorithm == "eaMuPlusLambda"
      then concat (
          "\tpop, logbook = algorithms."
          ∷ gp.algorithm
          ∷ "(pop, toolbox, mu="
          ∷ fmt_d gp.mu
          ∷ ", lambda_="
          ∷ fmt_d gp.lambda
          ∷ ", cxpb="
          ∷ F.fmt_v gp.cxpb
          ∷ ", mutpb="
          ∷ F.fmt_v gp.mutpb
          ∷ ", ngen="
          ∷ fmt_d gp.generations
          ∷ ", stats=mstats, halloffame=hof, verbose=True)\n"
          ∷ [])
      else if gp.algorithm == "eaMuCommaLambda"
      then concat (
          "\tpop, logbook = algorithms."
          ∷ gp.algorithm
          ∷ "(pop, toolbox, mu="
          ∷ fmt_d gp.mu
          ∷ ", lambda_="
          ∷ fmt_d gp.lambda
          ∷ ", cxpb="
          ∷ F.fmt_v gp.cxpb
          ∷ ", mutpb="
          ∷ F.fmt_v gp.mutpb
          ∷ ", ngen="
          ∷ fmt_d gp.generations
          ∷ ", stats=mstats, halloffame=hof, verbose=True)\n"
          ∷ [])
      else if gp.algorithm == "eaGenerateUpdate"
      then concat (
          "\tnumpy.random.seed(128)\n"
          ∷ "\tstrategy = cma.Strategy(centroid=[5.0] * "
          ∷ fmt_d gp.individual_size
          ∷ ", sigma=5.0, lambda_=20 * "
          ∷ fmt_d gp.individual_size
          ∷ ")\n"
          ∷ "\ttoolbox.register('generate', strategy.generate, creator.Individual)\n"
          ∷ "\ttoolbox.register('update', strategy.update)\n"
          ∷ "\tpop, logbook = algorithms."
          ∷ gp.algorithm
          ∷ "(toolbox, ngen="
          ∷ fmt_d gp.generations
          ∷ ", stats=mstats, halloffame=hof, verbose=True)\n"
          ∷ [])
      else concat (
          "\tpop, logbook = algorithms."
          ∷ gp.algorithm
          ∷ "(pop, toolbox, cxpb="
          ∷ F.fmt_v gp.cxpb
          ∷ ", mutpb="
          ∷ F.fmt_v gp.mutpb
          ∷ ", ngen="
          ∷ fmt_d gp.generations
          ∷ ", stats=mstats, halloffame=hof, verbose=True)\n"
          ∷ [])
