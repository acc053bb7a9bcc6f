-- ===== src/Python.antt =====
-- What the four generators of Python programs write alike: the names of DEAP's benchmark functions
-- (modules/ea.go, modules/pso.go), the tuple of fitness weights (`Code` of modules/ea.go,
-- modules/gp.go, modules/ml.go and modules/pso.go) and the names of the algorithms, which
-- util/validate.go tests.
pub mod Weights
use runner_controller_micros.Base.{String, List, [], ◌∷◌, ◌<>◌, Option, none, some, if◌then◌else◌}
use runner_controller_micros.Base.Text.{contains, replace_all}
use runner_controller_micros.Base.Floats.{Floats, fmt_f_slice}

abbrev pub benchmark_names : List String
benchmark_names =
    "rand" ∷ "plane" ∷ "sphere" ∷ "cigar" ∷ "rosenbrock" ∷ "h1" ∷ "ackley" ∷ "bohachevsky"
    ∷ "griewank" ∷ "rastrigin" ∷ "rastrigin_scaled" ∷ "rastrigin_skew" ∷ "schaffer" ∷ "schwefel"
    ∷ "himmelblau" ∷ []

-- The weights as `%f` prints the slice, with `(` for `[` and `,)` for `]`.
unfoldable pub weights_tuple : (F : Floats) → List F.Float → String
weights_tuple F ws = replace_all (replace_all (fmt_f_slice F ws) "[" "(") "]" ",)"

abbrev pub algorithm_names : List String
algorithm_names = "eaSimple" ∷ "eaMuPlusLambda" ∷ "eaMuCommaLambda" ∷ "eaGenerateUpdate" ∷ "de" ∷ []

-- `none` is the error `nil`.
unfoldable pub validate_algorithm_name : String → Option String
validate_algorithm_name algo =
    if contains algorithm_names algo then none else some ("invalid algorithm name: " <> algo)
