-- ===== src/Pso/Accept.antt =====
-- Which requests `Code` of modules/pso.go accepts, and what it writes for them.
use runner_controller_micros.Base.{
  sym, subst, ◌∙◌, Bool, Option, if◌then◌else◌, not, ◌≡◌, refl, ◌⊎◌, inl, inr, String, ◌<>◌, true,
  false, none, some, Option-cases,
}
use runner_controller_micros.Base.Int.{is_nonpositive}
use runner_controller_micros.Base.Decimal.{fmt_d}
use runner_controller_micros.Base.Text.{contains, concat, Includes}
use runner_controller_micros.Base.Text.Laws.{concat-Includes, join-Includes, Includes-trans}
use runner_controller_micros.Base.Outcome.{ok, err, ok-injective, err-ne-ok}
use runner_controller_micros.Base.Floats.{Floats}
use runner_controller_micros.Python.{benchmark_names}
use runner_controller_micros.Pso.Config.{Pso, swarm_algorithms, validate}
use runner_controller_micros.Pso.Program.{
  program, program_pieces, toolbox, particle_registration, code,
}

-- A known algorithm and benchmark, at least one dimension, particle and generation, and for
-- position and speed a minimum that is not at or above the maximum.
abbrev pub IsSound : (F : Floats) → Pso F → Type 0
IsSound F pso =
    (contains swarm_algorithms pso.algorithm ≡ true)
    × (is_nonpositive pso.dimensions ≡ false)
    × (F.ge pso.min_position pso.max_position ≡ false)
    × (F.ge pso.min_speed pso.max_speed ≡ false)
    × (contains benchmark_names pso.benchmark ≡ true)
    × (is_nonpositive pso.population_size ≡ false)
    × (is_nonpositive pso.generations ≡ false)

validate_of_IsSound : (F : Floats) (pso : Pso F) → IsSound F pso → validate F pso ≡ none
unfolding validate
validate_of_IsSound F pso (a, b, c, d, e, f, g) = rw (a, b, c, d, e, f, g) refl

guard-none :
    (b : Bool) (m : String) (rest : Option String)
    → (if b then some m else rest) ≡ none
    → (b ≡ false) × (rest ≡ none)
guard-none true m rest h = cc
guard-none false m rest h = (refl, h)

not-false : (b : Bool) → not b ≡ false → b ≡ true
not-false true h = refl
not-false false h = sym h

IsSound-of_validate : (F : Floats) (pso : Pso F) → validate F pso ≡ none → IsSound F pso
unfolding validate
IsSound-of_validate F pso h =
    let (a, h1) = guard-none _ _ _ h in
    let (b, h2) = guard-none _ _ _ h1 in
    let (c, h3) = guard-none _ _ _ h2 in
    let (d, h4) = guard-none _ _ _ h3 in
    let (e, h5) = guard-none _ _ _ h4 in
    let (f, h6) = guard-none _ _ _ h5 in
    let (g, _) = guard-none _ _ _ h6 in (not-false _ a, b, c, d, not-false _ e, f, g)

code_of_valid : (F : Floats) (pso : Pso F) → validate F pso ≡ none → code F pso ≡ ok (program F pso)
unfolding code
code_of_valid F pso h = rw h refl

-- `Code` returns a program, and the one that `program` writes, exactly for the sound requests. For
-- any other it returns an error.
pub code-ok-IsSound :
    (F : Floats) (pso : Pso F)
    → (IsSound F pso × (code F pso ≡ ok (program F pso)))
      ⊎ ((IsSound F pso → ⊥) × (m : String) × (code F pso ≡ err m))
unfolding code
code-ok-IsSound F pso = elim (Option-cases (validate F pso)) [
  | inl n ↦ inl (IsSound-of_validate F pso n, code_of_valid F pso n)
  | inr (m, e) ↦ inr (λ sound. no_message m e (validate_of_IsSound F pso sound), m, rw e refl)
]
  where
    no_message : (m : String) → validate F pso ≡ some m → validate F pso ≡ none → ⊥
    no_message m e n = cc

-- The text of the particle's registration when it has `size` coordinates.
abbrev pub generates : (F : Floats) → Pso F → String
generates F pso =
    "toolbox.register('particle', generate, size="
    <> (fmt_d pso.dimensions
        <> (", pmin="
            <> (F.fmt_f pso.min_position
                <> (", pmax="
                    <> (F.fmt_f pso.max_position
                        <> (", smin="
                            <> (F.fmt_f pso.min_speed
                                <> (", smax=" <> (F.fmt_f pso.max_speed <> ")")))))))))

in_toolbox :
    (F : Floats) (pso : Pso F) (t : String)
    → Includes (toolbox F pso) t
    → Includes (program F pso) t
unfolding program program_pieces
in_toolbox F pso t i = Includes-trans t (concat-Includes 8 (program_pieces F pso) refl) i

generates-toolbox : (F : Floats) (pso : Pso F) → Includes (toolbox F pso) (generates F pso)
unfolding toolbox particle_registration concat
generates-toolbox F pso = join-Includes 1 _ "\n" refl

-- From a request that `Code` accepts come particles of at least one coordinate, in the ranges of
-- position and speed of the request, and neither range is turned around.
pub particles_in_range :
    (F : Floats) (pso : Pso F) (s : String)
    → code F pso ≡ ok s
    → Includes s (generates F pso)
      × (is_nonpositive pso.dimensions ≡ false)
      × (F.ge pso.min_position pso.max_position ≡ false)
      × (F.ge pso.min_speed pso.max_speed ≡ false)
particles_in_range F pso s h = elim (code-ok-IsSound F pso) [
  | inl ((_, b, c, d, _, _, _), e) ↦ (
    subst (λ t. Includes t (generates F pso)) (ok-injective (sym e ∙ h))
        (in_toolbox F pso _ (generates-toolbox F pso)),
    b,
    c,
    d,
  )
  | inr (_, m, e) ↦ absurd (err-ne-ok (sym e ∙ h))
]
