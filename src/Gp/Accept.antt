-- ===== src/Gp/Accept.antt =====
-- Which requests `Code` of modules/gp.go accepts.
use runner_controller_micros.Base.{
  sym, ◌∙◌, ◌≡◌, refl, inl, inr, String, ◌<>◌, true, false, List, Bool-cases,
}
use runner_controller_micros.Base.Text.{contains}
use runner_controller_micros.Base.Outcome.{ok, err, ok-injective, err-ne-ok}
use runner_controller_micros.Base.Floats.{Floats}
use runner_controller_micros.Python.{algorithm_names, validate_algorithm_name}
use runner_controller_micros.Gp.Config.{Gp, validate}
use runner_controller_micros.Gp.Parts.{arg_entries}
use runner_controller_micros.Gp.Program.{program, code}

-- An order of the entries of a map, as a loop over it takes them.
abbrev pub Order : Type 0
Order = List (String × String) → List (String × String)

code_of_known :
    (F : Floats) (order : Order) (gp : Gp F)
    → contains algorithm_names gp.algorithm ≡ true
    → code F order gp ≡ ok (program F gp (order (arg_entries 0 gp.arg_names)))
unfolding code validate validate_algorithm_name
code_of_known F order gp h = rw h refl

code_of_unknown :
    (F : Floats) (order : Order) (gp : Gp F)
    → contains algorithm_names gp.algorithm ≡ false
    → code F order gp ≡ err ("invalid algorithm name: " <> gp.algorithm)
unfolding code validate validate_algorithm_name
code_of_unknown F order gp h = rw h refl

-- A program comes from one of the five names, and is the one that `program` writes.
pub code-ok :
    (F : Floats) (order : Order) (gp : Gp F) (s : String)
    → code F order gp ≡ ok s
    → (contains algorithm_names gp.algorithm ≡ true)
      × (s ≡ program F gp (order (arg_entries 0 gp.arg_names)))
code-ok F order gp s h = elim (Bool-cases (contains algorithm_names gp.algorithm)) [
  | inl e ↦ (e, ok-injective (sym h ∙ code_of_known F order gp e))
  | inr e ↦ absurd (err-ne-ok (sym (code_of_unknown F order gp e) ∙ h))
]
