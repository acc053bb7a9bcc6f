-- ===== src/Ea/Accept.antt =====
-- Which requests `Code` of modules/ea.go accepts, and what it leaves in its receiver.
use runner_controller_micros.Base.{
  ◌≡◌, sym, ap, ◌∙◌, ◌⊎◌, inl, inr, String, ◌<>◌, true, false, none, some, List, [], ◌∷◌,
  Bool-cases,
}
use runner_controller_micros.Base.Text.{contains}
use runner_controller_micros.Base.Outcome.{ok, err, ok-injective, err-ne-ok}
use runner_controller_micros.Base.Floats.{Floats, IsLawful}
use runner_controller_micros.Python.{algorithm_names, validate_algorithm_name}
use runner_controller_micros.Ea.Config.{Ea, checked_range}
use runner_controller_micros.Ea.Program.{code}
use runner_controller_micros.Ea.Result.{
  prepared, evaluation, program_of, checked_range_lem, code_of_valid-ok, code_of_invalid,
}

valid_name : (a : String) → contains algorithm_names a ≡ true → validate_algorithm_name a ≡ none
unfolding validate_algorithm_name
valid_name a h = rw h

invalid_name :
    (a : String)
    → contains algorithm_names a ≡ false
    → validate_algorithm_name a ≡ some ("invalid algorithm name: " <> a)
unfolding validate_algorithm_name
invalid_name a h = rw h

module _ (F : Floats) (L : IsLawful F) where
  -- For every request `Code` returns: a program if the algorithm is one of the five names, with
  -- the range checked and the benchmark qualified in the receiver, and else the error with the
  -- name, and the receiver as it was. It never panics.
  pub code_total :
      (ea : Ea F)
      → ((contains algorithm_names ea.algorithm ≡ true)
          × (s : String) × (code F ea ≡ (ok s, prepared F ea)))
        ⊎ ((contains algorithm_names ea.algorithm ≡ false)
            × (code F ea ≡ (err ("invalid algorithm name: " <> ea.algorithm), ea)))
  code_total ea = elim (Bool-cases (contains algorithm_names ea.algorithm)) [
    | inl h ↦
        let (ind, _, e) = code_of_valid-ok F L ea (valid_name _ h) in
        inl (h, program_of F (prepared F ea) (evaluation F ea) ind, e)
    | inr h ↦ inr (h, code_of_invalid F ea _ (invalid_name _ h))
  ]

  pub code-ok :
      (ea : Ea F) (s : String)
      → (code F ea).0 ≡ ok s
      → ((code F ea).1 ≡ prepared F ea)
        × (contains algorithm_names ea.algorithm ≡ true)
        × (ind : String) × (s ≡ program_of F (prepared F ea) (evaluation F ea) ind)
  code-ok ea s h = elim (Bool-cases (contains algorithm_names ea.algorithm)) [
    | inl v ↦
        let (ind, _, e) = code_of_valid-ok F L ea (valid_name _ v) in
        (ap (λ r. r.1) e, v, ind, ok-injective (sym h ∙ ap (λ r. r.0) e))
    | inr v ↦
        absurd (err-ne-ok (sym (ap (λ r. r.0) (code_of_invalid F ea _ (invalid_name _ v))) ∙ h))
  ]

  -- After a success the range of the receiver has exactly two ends, and the first is not at or
  -- above the second.
  pub random_range-code :
      (ea : Ea F) (s : String)
      → (code F ea).0 ≡ ok s
      → (lo hi : F.Float) × ((code F ea).1.random_range ≡ lo ∷ hi ∷ []) × (F.ge lo hi ≡ false)
  random_range-code ea s h =
      let (lo, hi, e, g) = checked_range_lem F L ea.random_range in
      (lo, hi, rw ((code-ok ea s h).0) e, g)

  checked_range_idem : (r : List F.Float) → checked_range F (checked_range F r) ≡ checked_range F r
  unfolding checked_range
  checked_range_idem r = let (lo, hi, e, g) = checked_range_lem F L r in rw e (rw g)
