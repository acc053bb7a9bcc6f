-- ===== src/Tests/Ea.antt =====
-- Requests for modules/ea.go.
use runner_controller_micros.Base.{
  ◌≡◌, refl, ◌≢◌, ◌⊎◌, String, ◌<>◌, true, false, [], ◌∷◌, arith, eq_iff,
}
use runner_controller_micros.Base.Int.{pos}
use runner_controller_micros.Base.Text.{concat, contains, to_lower, join, Includes}
use runner_controller_micros.Base.Outcome.{ok, err}
use runner_controller_micros.Python.{validate_algorithm_name, algorithm_names, benchmark_names}
use runner_controller_micros.Ea.Config.{Ea, checked_range, validate}
use runner_controller_micros.Ea.Templates.{de_mutation_function}
use runner_controller_micros.Ea.Result.{prepared, qualified, evaluation, program_of}
use runner_controller_micros.Ea.Parts.{eval_function, register_individual}
use runner_controller_micros.Ea.Program.{program, code}
use runner_controller_micros.Ea.Accept.{code_total, random_range-code}
use runner_controller_micros.Ea.Names.{defined_names}
use runner_controller_micros.Ea.Contents.{
  requested_algorithm, evaluation_defined, de_mutation, weights_registered,
}
use runner_controller_micros.Tests.Sample.{half, one, five, sample, sample-IsLawful}

-- A search over bits, with the range left out.
abbrev pub one_max : Ea sample
one_max = record {
  algorithm = "eaSimple";
  individual = "binaryString";
  population_function = "initRepeat";
  custom_pop = "";
  evaluation_function = "evalOneMax";
  custom_eval = "";
  population_size = pos 100;
  generations = pos 20;
  cxpb = half;
  mutpb = half;
  weights = one ∷ half ∷ [];
  individual_size = pos 10;
  indpb = half;
  random_range = [];
  crossover_function = "cxTwoPoint";
  mutation_function = "mutFlipBit";
  custom_mutation = "";
  selection_function = "selTournament";
  custom_selection = "";
  tournament_size = pos 3;
  mu = pos 0;
  lambda = pos 0;
  hof_size = pos 1;
  cross_over_rate = half;
  scaling_factor = one;
}

-- Differential evolution with a strategy other than the first.
abbrev de_rand_2 : Ea sample
de_rand_2 = record one_max {
  algorithm = "de";
  individual = "floatingPoint";
  evaluation_function = "sphere";
  random_range = five ∷ one ∷ [];
  mutation_function = "DE/rand/2";
  crossover_function = "cxBinomial";
}

abbrev text_of : Ea sample → String → String
text_of e ind = program_of sample (prepared sample e) (evaluation sample e) ind

one_max_text : String
one_max_text = text_of one_max "toolbox.register(\"attr\", random.randint, 0, 1)\n"

one_max-ok : (code sample one_max).0 ≡ ok one_max_text
unfolding code validate validate_algorithm_name contains eval_function register_individual to_lower
    checked_range program one_max_text
one_max-ok = refl

de_text : String
de_text = text_of de_rand_2 "toolbox.register(\"attr\", random.uniform, 1.000000, 5.000000)\n"

de-ok : (code sample de_rand_2).0 ≡ ok de_text
unfolding code validate validate_algorithm_name contains eval_function register_individual to_lower
    checked_range program de_text concat
de-ok = refl

code_total_example :
    ((contains algorithm_names "de" ≡ true)
      × (s : String) × (code sample de_rand_2 ≡ (ok s, prepared sample de_rand_2)))
    ⊎ ((contains algorithm_names "de" ≡ false)
        × (code sample de_rand_2 ≡ (err ("invalid algorithm name: " <> "de"), de_rand_2)))
code_total_example = code_total sample sample-IsLawful de_rand_2

random_range-code_example :
    (lo hi : sample.Float) × ((code sample de_rand_2).1.random_range ≡ lo ∷ hi ∷ [])
    × (sample.ge lo hi ≡ false)
random_range-code_example = random_range-code sample sample-IsLawful de_rand_2 de_text de-ok

simple-ne-de : ◌≢◌ {A = String} "eaSimple" "de"
simple-ne-de = ground (arith, eq_iff "eaSimple" "de")

requested_algorithm_example :
    Includes one_max_text ("\tpop, logbook = algorithms." <> ("eaSimple" <> "("))
requested_algorithm_example =
    requested_algorithm sample sample-IsLawful one_max one_max_text one_max-ok simple-ne-de

evaluation_defined_example :
    Includes one_max_text
      ("toolbox.register(\"evaluate\", " <> (qualified sample "evalOneMax" <> ")\n"))
    × ((contains benchmark_names "evalOneMax" ≡ true)
        ⊎ ((contains defined_names "evalOneMax" ≡ true)
            × Includes one_max_text ("def " <> ("evalOneMax" <> "(individual):\n")))
        ⊎ ((contains benchmark_names "evalOneMax" ≡ false)
            × (contains defined_names "evalOneMax" ≡ false)
            × Includes one_max_text ""))
evaluation_defined_example =
    evaluation_defined sample sample-IsLawful one_max one_max_text one_max-ok

de_mutation_example :
    Includes de_text ("toolbox.register(\"mutate\", mutDE, f=" <> ("0.500000" <> ")\n"))
    × Includes de_text (de_mutation_function "DE/rand/2")
de_mutation_example = de_mutation sample sample-IsLawful de_rand_2 de_text de-ok refl

weights_registered_example : Includes one_max_text (
    "creator.create('FitnessMax', base.Fitness, weights="
    <> (("(" <> (join ("1.000000" ∷ "0.500000" ∷ []) " " <> ",)")) <> ")\n"))
weights_registered_example =
    weights_registered sample sample-IsLawful one_max one_max_text one_max-ok
