-- ===== src/Ml/Contents.antt =====
-- Which requests `Code` of modules/ml.go accepts, and what the program contains.
use runner_controller_micros.Base.{
  ◌≡◌, refl, sym, ◌∙◌, ◌⊎◌, inl, inr, String, ◌<>◌, true, false, Bool-cases,
}
use runner_controller_micros.Base.Text.{contains, Includes}
use runner_controller_micros.Base.Text.Laws.{
  concat-Includes, Includes-trans, Includes-refl, Includes-append_left, contains-All,
}
use runner_controller_micros.Base.Outcome.{ok, err, ok-injective, err-ne-ok}
use runner_controller_micros.Base.Floats.{Floats}
use runner_controller_micros.Python.{algorithm_names, validate_algorithm_name}
use runner_controller_micros.Ml.Config.{Eaml, validate}
use runner_controller_micros.Ml.Program.{call_algo, program, program_pieces, code}

code_of_known :
    (F : Floats) (ml : Eaml F)
    → contains algorithm_names ml.algorithm ≡ true
    → code F ml ≡ ok (program F ml)
unfolding code validate validate_algorithm_name
code_of_known F ml h = rw h refl

code_of_unknown :
    (F : Floats) (ml : Eaml F)
    → contains algorithm_names ml.algorithm ≡ false
    → code F ml ≡ err ("invalid algorithm name: " <> ml.algorithm)
unfolding code validate validate_algorithm_name
code_of_unknown F ml h = rw h refl

-- A program comes from one of the five names, and is the one that `program` writes.
pub code-ok :
    (F : Floats) (ml : Eaml F) (s : String)
    → code F ml ≡ ok s
    → (contains algorithm_names ml.algorithm ≡ true) × (s ≡ program F ml)
code-ok F ml s h = elim (Bool-cases (contains algorithm_names ml.algorithm)) [
  | inl e ↦ (e, ok-injective (sym h ∙ code_of_known F ml e))
  | inr e ↦ absurd (err-ne-ok (sym (code_of_unknown F ml e) ∙ h))
]

abbrev pub calls : String → String
calls a = "\tpop, logbook = algorithms." <> (a <> "(")

abbrev lambda_arguments : String
lambda_arguments =
    "pop, toolbox, mu=mu, lambda_=lambda_, cxpb=cxpb, mutpb=mutpb, ngen=generations, stats=stats, halloffame=hof, verbose=True)\n"

abbrev plain_arguments : String
plain_arguments =
    "pop, toolbox, cxpb=cxpb, mutpb=mutpb, ngen=generations, stats=stats, halloffame=hof, verbose=True)\n"

abbrev update_arguments : String
update_arguments = "toolbox, ngen=generations, stats=stats, halloffame=hof, verbose=True)\n"

starts : (a rest : String) → Includes (calls a <> rest) (calls a)
starts a rest = Includes-append_left (calls a) rest _ (Includes-refl _)

call_algo-calls :
    (F : Floats) (ml : Eaml F)
    → contains algorithm_names ml.algorithm ≡ true
    → ((ml.algorithm ≡ "de") × (call_algo F ml ≡ ""))
      ⊎ Includes (call_algo F ml) (calls ml.algorithm)
unfolding call_algo
call_algo-calls F ml h =
    contains-All
      (λ a.
        ((a ≡ "de") × (call_algo F (record ml { algorithm = a }) ≡ ""))
        ⊎ Includes (call_algo F (record ml { algorithm = a })) (calls a))
      algorithm_names ml.algorithm
      (
        inr (starts "eaSimple" plain_arguments),
        (
          inr (
              Includes-trans (calls "eaMuPlusLambda") (concat-Includes 6 _ refl)
                (starts "eaMuPlusLambda" lambda_arguments)),
          (
            inr (
                Includes-trans (calls "eaMuCommaLambda") (concat-Includes 6 _ refl)
                  (starts "eaMuCommaLambda" lambda_arguments)),
            (
              inr (
                  Includes-trans (calls "eaGenerateUpdate") (concat-Includes 6 _ refl)
                    (starts "eaGenerateUpdate" update_arguments)),
              (inl (refl, refl), tt),
            ),
          ),
        ),
      )
      h

-- A program that `Code` returns for machine learning contains the evaluation function of the
-- request. For every algorithm but `de` it calls the algorithm by its name; `de` is accepted too,
-- and then what stands in the place of the call is empty.
pub ml_algorithm_called :
    (F : Floats) (ml : Eaml F) (s : String)
    → code F ml ≡ ok s
    → Includes s ml.ml_eval_function_code_string
      × (((ml.algorithm ≡ "de") × (call_algo F ml ≡ "")) ⊎ Includes s (calls ml.algorithm))
unfolding program program_pieces
ml_algorithm_called F ml s ran =
    let (known, e) = code-ok F ml s ran in
    (
      rw e (concat-Includes 4 (program_pieces F ml) refl),
      elim (call_algo-calls F ml known) [
        | inl de ↦ inl de
        | inr i ↦ inr (
            rw e (
              Includes-trans (calls ml.algorithm) (concat-Includes 45 (program_pieces F ml) refl)
                i))
      ],
    )
