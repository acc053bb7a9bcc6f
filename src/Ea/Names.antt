-- ===== src/Ea/Names.antt =====
-- The names that `callAlgo` and `evalFunction` of modules/ea.go write.
use runner_controller_micros.Base.{
  sym, ◌∙◌, subst, ℕ, ◌≡◌, refl, ◌⊎◌, inl, inr, String, ◌<>◌, ◌==◌, true, false, some, List, [],
  ◌∷◌, Bool-cases, get_elem?, eq_iff,
}
use mathlib.Core.Bool.{false≢true}
use runner_controller_micros.Base.Text.{concat, contains, Includes, to_lower}
use runner_controller_micros.Base.Text.Laws.{
  concat-Includes, Includes-trans, Includes-refl, contains-All, ne-eq, Includes-append_left,
}
use runner_controller_micros.Base.Floats.{Floats}
use runner_controller_micros.Python.{algorithm_names, benchmark_names}
use runner_controller_micros.Ea.Config.{Ea}
use runner_controller_micros.Ea.Parts.{eval_function, call_algo}

abbrev pub calls : String → String
calls a = "\tpop, logbook = algorithms." <> (a <> "(")

abbrev plain_arguments : String
plain_arguments =
    "pop, toolbox, cxpb=cxpb, mutpb=mutpb, ngen=generations, stats=stats, halloffame=hof, verbose=True)\n"

abbrev lambda_arguments : String
lambda_arguments =
    "pop, toolbox, mu=mu, lambda_=lambda_, cxpb=cxpb, mutpb=mutpb, ngen=generations, stats=stats, halloffame=hof, verbose=True)\n"

abbrev update_arguments : String
update_arguments = "toolbox, ngen=generations, stats=stats, halloffame=hof, verbose=True)\n"

call_within :
    (n : ℕ) (xs : List String) (a rest : String)
    → get_elem? xs n ≡ some (calls a <> rest)
    → Includes (concat xs) (calls a)
call_within n xs a rest h =
    Includes-trans (calls a) (concat-Includes n xs h)
      (Includes-append_left _ rest _ (Includes-refl _))

-- The call names the algorithm of the request.
pub call_algo-Includes :
    (F : Floats) (e : Ea F)
    → contains algorithm_names e.algorithm ≡ true
    → (e.algorithm ≡ "de") ⊎ Includes (call_algo F e) (calls e.algorithm)
unfolding call_algo to_lower
call_algo-Includes F e h =
    contains-All (λ a. (a ≡ "de") ⊎ Includes (call_algo F (record e { algorithm = a })) (calls a))
      algorithm_names e.algorithm
      (
        inr (Includes-append_left _ plain_arguments _ (Includes-refl _)),
        (
          inr (call_within 6 _ "eaMuPlusLambda" lambda_arguments refl),
          (
            inr (call_within 6 _ "eaMuCommaLambda" lambda_arguments refl),
            (inr (call_within 5 _ "eaGenerateUpdate" update_arguments refl), (inl refl, tt)),
          ),
        ),
      )
      h

abbrev pub defines : String → String
defines name = "def " <> (name <> "(individual):\n")

-- The functions that `evalFunction` defines.
abbrev pub defined_names : List String
defined_names = "evalOneMax" ∷ "evalProduct" ∷ "evalDifference" ∷ []

abbrev pub IsBacked : (F : Floats) → Ea F → String → Type 0
IsBacked F e name =
    let text = (eval_function F (record e { evaluation_function = name })).0 in
    ((contains defined_names name ≡ true) × Includes text (defines name))
    ⊎ ((contains defined_names name ≡ false) × (text ≡ e.custom_eval))

swapped : (s t : String) → (s == t) ≡ false → (t == s) ≡ false
swapped s t p = ne-eq (λ same. false≢true (sym p ∙ (eq_iff s t).1 (sym same)))

none_of :
    (name : String)
    → (name == "evalOneMax") ≡ false
    → (name == "evalProduct") ≡ false
    → (name == "evalDifference") ≡ false
    → contains defined_names name ≡ false
unfolding contains
none_of name p q r = rw (swapped name _ p, swapped name _ q, swapped name _ r) refl

-- A function that is no benchmark is defined by the text of `evalFunction`, if it is one of three
-- names; for any other the text is that of the request.
pub eval_function-IsBacked :
    (F : Floats) (e : Ea F)
    → contains benchmark_names e.evaluation_function ≡ false
    → IsBacked F e e.evaluation_function
unfolding eval_function contains
eval_function-IsBacked F e h =
    let name = e.evaluation_function in
    elim (Bool-cases (name == "evalOneMax")) [
      | inl p ↦
          subst (IsBacked F e) (sym ((eq_iff name "evalOneMax").0 p))
            (inl (refl, Includes-append_left _ "    return sum(individual)," _ (Includes-refl _)))
      | inr p ↦ elim (Bool-cases (name == "evalProduct")) [
        | inl q ↦ subst (IsBacked F e) (sym ((eq_iff name "evalProduct").0 q)) (
            inl (
              refl,
              Includes-append_left _ "    return reduce(lambda x, y: x*y, individual)," _
                  (Includes-refl _),
            ))
        | inr q ↦ elim (Bool-cases (name == "evalDifference")) [
          | inl r ↦ subst (IsBacked F e) (sym ((eq_iff name "evalDifference").0 r)) (
              inl (
                refl,
                Includes-append_left _ "    return reduce(lambda x, y: x-y, individual)," _
                    (Includes-refl _),
              ))
          | inr r ↦ inr (none_of name p q r, rw (h, p, q, r))
        ]
      ]
    ]
