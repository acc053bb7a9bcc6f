-- ===== src/Tests/Gp.antt =====
-- A request for modules/gp.go, with an operator that the table does not have.
use runner_controller_micros.Base.{◌≡◌, refl, String, ◌<>◌, false, [], ◌∷◌}
use runner_controller_micros.Base.Int.{pos}
use runner_controller_micros.Base.Decimal.{fmt_d}
use runner_controller_micros.Base.Text.{contains, Includes}
use runner_controller_micros.Base.Outcome.{ok}
use runner_controller_micros.Python.{validate_algorithm_name}
use runner_controller_micros.Gp.Config.{Gp, validate}
use runner_controller_micros.Gp.Parts.{primitive, primitive_line, arg_entries}
use runner_controller_micros.Gp.Program.{program, code}
use runner_controller_micros.Gp.Accept.{Order}
use runner_controller_micros.Gp.Operators.{operator_names, nil_line}
use runner_controller_micros.Gp.Arguments.{quoted, Visits}
use runner_controller_micros.Gp.Contents.{arguments_renamed, primitives_added}
use runner_controller_micros.Tests.Sample.{half, one, sample}

abbrev pub regression : Gp sample
regression = record {
  algorithm = "eaSimple";
  arity = pos 1;
  operators = "add" ∷ "pow" ∷ [];
  arg_names = "x" ∷ "y" ∷ [];
  individual_type = "";
  expr = "genFull";
  real_function = "x**2";
  min_ = pos 1;
  max_ = pos 1;
  individual_function = "initIterate";
  population_function = "initRepeat";
  selection_function = "selTournament";
  tournament_size = pos 1;
  expr_mut = "genFull";
  crossover_function = "cxOnePoint";
  terminal_prob = half;
  mutation_function = "mutUniform";
  mutation_mode = "";
  mate_height = pos 1;
  mut_height = pos 1;
  weights = one ∷ [];
  population_size = pos 5;
  generations = pos 10;
  cxpb = half;
  mutpb = half;
  mu = pos 1;
  lambda = pos 1;
  individual_size = pos 1;
  hof_size = pos 1;
  expr_mut_min = pos 1;
  expr_mut_max = pos 1;
}

-- The entries in the order of the arguments.
abbrev in_order : Order
in_order es = es

in_order-Visits : Visits in_order
in_order-Visits es n e h = (n, h)

regression_text : String
regression_text = program sample regression (arg_entries 0 ("x" ∷ "y" ∷ []))

regression-ok : code sample in_order regression ≡ ok regression_text
unfolding code validate validate_algorithm_name contains regression_text
regression-ok = refl

arguments_renamed_example :
    (entries : String) × Includes regression_text
      ("arg_dict = {" <> (entries <> ("}\n" <> "pset.renameArguments(**arg_dict)\n\n")))
    × Includes entries (quoted ("ARG" <> fmt_d (pos 1), "y"))
arguments_renamed_example =
    arguments_renamed sample in_order in_order-Visits regression regression_text regression-ok 1 "y"
      refl

primitives_added_example :
    Includes regression_text (primitive_line (primitive "pow"))
    × (contains operator_names "pow" ≡ false → Includes regression_text nil_line)
primitives_added_example =
    primitives_added sample in_order in_order-Visits regression regression_text regression-ok 1
      "pow" refl
