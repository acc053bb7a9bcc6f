-- ===== src/Ea/Result.antt =====
-- When `Code` of modules/ea.go gives a program, and of which parts it is made.
use runner_controller_micros.Base.{
  ◌≡◌, refl, ◌≢◌, ◌∙◌, inl, inr, String, ◌<>◌, false, none, some, List, [], ◌∷◌, arith, Bool-cases,
  Option-cases, if◌then◌else◌,
}
use runner_controller_micros.Base.Text.{contains, concat}
use runner_controller_micros.Base.Outcome.{ok, err}
use runner_controller_micros.Base.Floats.{Floats, IsLawful}
use runner_controller_micros.Python.{benchmark_names, validate_algorithm_name}
use runner_controller_micros.Ea.Config.{Ea, checked_range, validate}
use runner_controller_micros.Ea.Parts.{eval_function, register_individual}
use runner_controller_micros.Ea.Program.{preamble, registrations, main_function, program, code}

module _ (F : Floats) where
  -- A benchmark's name is qualified, any other stays.
  abbrev pub qualified : String → String
  qualified e = if contains benchmark_names e then "benchmarks." <> e else e

  -- The receiver when the parts are written: with its range checked and its benchmark qualified.
  abbrev pub prepared : Ea F → Ea F
  prepared ea = record ea {
    evaluation_function = qualified ea.evaluation_function;
    random_range = checked_range F ea.random_range;
  }

  eval_function-qualified :
      (ea : Ea F)
      → eval_function F ea ≡ (
        (eval_function F ea).0,
        record ea { evaluation_function = qualified ea.evaluation_function },
      )
  unfolding eval_function
  eval_function-qualified ea = elim (Bool-cases (contains benchmark_names ea.evaluation_function)) [
    | inl e ↦ rw e
    | inr e ↦ rw e
  ]

  -- The range that `validate` leaves has two ends, and its first is not at or above its second.
  pub checked_range_lem :
      IsLawful F
      → (r : List F.Float)
      → (lo hi : F.Float) × (checked_range F r ≡ lo ∷ hi ∷ []) × (F.ge lo hi ≡ false)
  unfolding checked_range
  checked_range_lem L [] = (F.lit 1, F.lit 5, refl, L.one_below_five)
  checked_range_lem L (lo ∷ []) = (F.lit 1, F.lit 5, refl, L.one_below_five)
  checked_range_lem L (lo ∷ hi ∷ []) = elim (Bool-cases (F.ge lo hi)) [
    | inl e ↦ (F.lit 1, F.lit 5, rw e, L.one_below_five)
    | inr e ↦ (lo, hi, rw e, e)
  ]
  checked_range_lem L (lo ∷ hi ∷ x ∷ r) = (F.lit 1, F.lit 5, refl, L.one_below_five)

  register_individual-ne-none :
      (ea : Ea F) (lo hi : F.Float)
      → ea.random_range ≡ lo ∷ hi ∷ []
      → register_individual F ea ≢ none
  unfolding register_individual
  register_individual-ne-none ea lo hi e = rw e (ground arith)

  pub validate_of_valid :
      (ea : Ea F)
      → validate_algorithm_name ea.algorithm ≡ none
      → validate F ea ≡ (none, record ea { random_range = checked_range F ea.random_range })
  unfolding validate
  validate_of_valid ea h = rw (h, validate)

  abbrev pub program_of : Ea F → String → String → String
  program_of ea evaluation individual =
      concat (preamble F ea evaluation ∷ registrations F ea individual ∷ main_function F ea ∷ [])

  abbrev pub evaluation : Ea F → String
  evaluation ea = (eval_function F (record ea { random_range = checked_range F ea.random_range })).0

  code_of_valid :
      (ea : Ea F)
      → validate_algorithm_name ea.algorithm ≡ none
      → code F ea ≡ (
        program F (prepared ea) (evaluation ea) (register_individual F (prepared ea)),
        prepared ea,
      )
  unfolding code
  code_of_valid ea h =
      rw (validate_of_valid ea h, code)
        (rw
          (eval_function-qualified (record ea { random_range = checked_range F ea.random_range })))

  -- A valid request gives the program whose parts are written from the prepared receiver, and
  -- leaves that receiver.
  pub code_of_valid-ok :
      IsLawful F
      → (ea : Ea F) → validate_algorithm_name ea.algorithm ≡ none
      → (individual : String) × (register_individual F (prepared ea) ≡ some individual)
        × (code F ea ≡ (ok (program_of (prepared ea) (evaluation ea) individual), prepared ea))
  unfolding program
  code_of_valid-ok L ea h =
      let (lo, hi, e, _) = checked_range_lem L ea.random_range in
      elim (Option-cases (register_individual F (prepared ea))) [
        | inl n ↦ absurd (register_individual-ne-none (prepared ea) lo hi e n)
        | inr (x, p) ↦ (x, p, code_of_valid ea h ∙ rw p)
      ]

  validate_of_invalid :
      (ea : Ea F) (e : String)
      → validate_algorithm_name ea.algorithm ≡ some e
      → validate F ea ≡ (some e, ea)
  unfolding validate
  validate_of_invalid ea e h = rw (h, validate)

  pub code_of_invalid :
      (ea : Ea F) (e : String)
      → validate_algorithm_name ea.algorithm ≡ some e
      → code F ea ≡ (err e, ea)
  unfolding code
  code_of_invalid ea e h = rw (validate_of_invalid ea e h, code)
