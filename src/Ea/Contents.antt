-- ===== src/Ea/Contents.antt =====
-- What the program that `Code` of modules/ea.go gives contains.
use runner_controller_micros.Base.{
  map, sym, ◌≡◌, refl, ◌≢◌, ◌⊎◌, inl, inr, String, ◌<>◌, true, false, [], ◌∷◌, Bool-cases,
}
use runner_controller_micros.Base.Text.{join, concat, contains, Includes}
use runner_controller_micros.Base.Text.Laws.{
  concat-Includes, Includes-trans, Includes-refl, concat-Includes-run, ne-eq,
}
use runner_controller_micros.Base.Outcome.{ok}
use runner_controller_micros.Base.Floats.{Floats, IsLawful}
use runner_controller_micros.Python.{benchmark_names}
use runner_controller_micros.Python.Weights.{weights_tuple_lem}
use runner_controller_micros.Ea.Config.{Ea, checked_range}
use runner_controller_micros.Ea.Templates.{de_mutation_function}
use runner_controller_micros.Ea.Parts.{call_algo, mutation_function}
use runner_controller_micros.Ea.Program.{
  preamble, preamble_pieces, registrations, registration_pieces, main_function, main_pieces,
  main_loop, de_definitions, code,
}
use runner_controller_micros.Ea.Result.{prepared, qualified, evaluation}
use runner_controller_micros.Ea.Names.{
  calls, defined_names, call_algo-Includes, eval_function-IsBacked,
}
use runner_controller_micros.Ea.Accept.{code-ok}

module _ (F : Floats) (L : IsLawful F) (ea : Ea F) (s : String) (ran : (code F ea).0 ≡ ok s) where
  abbrev ready : Ea F
  ready = prepared F ea

  in_preamble : (t : String) → Includes (preamble F ready (evaluation F ea)) t → Includes s t
  in_preamble t i =
      let (_, _, ind, e) = code-ok F L ea s ran in
      rw e (Includes-trans t (concat-Includes 0 _ refl) i)

  in_registrations :
      (t : String) → ((ind : String) → Includes (registrations F ready ind) t) → Includes s t
  in_registrations t i =
      let (_, _, ind, e) = code-ok F L ea s ran in
      rw e (Includes-trans t (concat-Includes 1 _ refl) (i ind))

  in_main : (t : String) → Includes (main_function F ready) t → Includes s t
  in_main t i =
      let (_, _, ind, e) = code-ok F L ea s ran in
      rw e (Includes-trans t (concat-Includes 2 _ refl) i)

  in_main_loop : (t : String) → Includes (main_loop F ready) t → Includes s t
  in_main_loop t i = in_main t (Includes-trans t (at_loop) i)
    where
      at_loop : Includes (main_function F ready) (main_loop F ready)
      at_loop = unfold main_function in concat-Includes 25 (main_pieces F ready) refl

  calls_in_loop :
      ea.algorithm ≢ "de"
      → Includes (call_algo F ready) (calls ea.algorithm)
      → Includes (main_loop F ready) (calls ea.algorithm)
  unfolding main_loop
  calls_in_loop other i = rw (ne-eq other) (
      Includes-trans (calls ea.algorithm) (concat-Includes 0 (call_algo F ready ∷ "\n" ∷ []) refl)
        i)

  -- A program that `Code` returns for an algorithm other than differential evolution calls the
  -- algorithm of the request, by its name.
  pub requested_algorithm :
      ea.algorithm ≢ "de" → Includes s ("\tpop, logbook = algorithms." <> (ea.algorithm <> "("))
  requested_algorithm other =
      let (_, valid, _, _) = code-ok F L ea s ran in
      elim (call_algo-Includes F ready valid) [
        | inl de ↦ absurd (other de)
        | inr i ↦ in_main_loop _ (calls_in_loop other i)
      ]

  pub evaluate_registration :
      Includes s
        ("toolbox.register(\"evaluate\", " <> (qualified F ea.evaluation_function <> ")\n"))
  unfolding registrations concat
  evaluate_registration =
      in_registrations _ (λ ind. concat-Includes-run 9 3 (registration_pieces F ready ind))

  in_evaluation : (t : String) → Includes (evaluation F ea) t → Includes s t
  unfolding preamble
  in_evaluation t i =
      in_preamble t
        (Includes-trans t (concat-Includes 2 (preamble_pieces F ready (evaluation F ea)) refl) i)

  -- In a program that `Code` returns, the evaluation function of the toolbox is the one that the
  -- request names: a benchmark, with its module in front; or one of evalOneMax, evalProduct and
  -- evalDifference, which the program then defines; or any other name, and the program has the text
  -- that the request brings for it.
  pub evaluation_defined :
      Includes s
        ("toolbox.register(\"evaluate\", " <> (qualified F ea.evaluation_function <> ")\n"))
      × ((contains benchmark_names ea.evaluation_function ≡ true)
          ⊎ ((contains defined_names ea.evaluation_function ≡ true)
              × Includes s ("def " <> (ea.evaluation_function <> "(individual):\n")))
          ⊎ ((contains benchmark_names ea.evaluation_function ≡ false)
              × (contains defined_names ea.evaluation_function ≡ false)
              × Includes s ea.custom_eval))
  evaluation_defined = (
    evaluate_registration,
    elim (Bool-cases (contains benchmark_names ea.evaluation_function)) [
      | inl b ↦ inl b
      | inr b ↦
          elim (eval_function-IsBacked F
            (record ea { random_range = checked_range F ea.random_range }) b) [
              | inl (known, i) ↦ inr (inl (known, in_evaluation _ i))
              | inr (unknown, e) ↦ inr (inr (b, unknown, in_evaluation _ (rw e (Includes-refl _))))
            ]
    ],
  )

  in_mutation : (t : String) → Includes (mutation_function F ready) t → Includes s t
  unfolding registrations
  in_mutation t i =
      in_registrations t
        λ ind. Includes-trans t (concat-Includes 12 (registration_pieces F ready ind) refl) i

  in_de_definitions : (t : String) → Includes (de_definitions F ready) t → Includes s t
  unfolding preamble
  in_de_definitions t i =
      in_preamble t
        (Includes-trans t (concat-Includes 4 (preamble_pieces F ready (evaluation F ea)) refl) i)

  -- In a program that `Code` returns for differential evolution the mutation of the toolbox is
  -- `mutDE` with `indpb` for its factor, whichever strategy the request names. The function of that
  -- strategy stands in the program as well.
  pub de_mutation :
      ea.algorithm ≡ "de"
      → Includes s ("toolbox.register(\"mutate\", mutDE, f=" <> (F.fmt_f ea.indpb <> ")\n"))
        × Includes s (de_mutation_function ea.mutation_function)
  unfolding de_definitions mutation_function
  de_mutation de = (
    in_mutation _ (rw (de, mutation_function) (unfold concat in (Includes-refl _))),
    in_de_definitions _ (rw (de, de_definitions) (concat-Includes 2 _ refl)),
  )

  -- The weights stand in a program that `Code` returns as a Python tuple that has one comma, at its
  -- end, and single spaces between the numbers.
  pub weights_registered : Includes s (
      "creator.create('FitnessMax', base.Fitness, weights="
      <> (("(" <> (join (map F.fmt_f ea.weights) " " <> ",)")) <> ")\n"))
  unfolding registrations concat
  weights_registered =
      rw (sym (weights_tuple_lem F L ea.weights))
        (in_registrations _ (λ ind. concat-Includes-run 1 3 (registration_pieces F ready ind)))
