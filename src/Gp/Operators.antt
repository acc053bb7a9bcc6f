-- ===== src/Gp/Operators.antt =====
-- The lines that `addPrimitivesToPSET` and `callAlgo` of modules/gp.go write.
use runner_controller_micros.Base.{
  Bool-cases, eq_iff, ◌==◌, ℕ, zero, suc, ◌≡◌, refl, sym, ◌∙◌, inl, inr, String, ◌<>◌, true, false,
  some, List, [], ◌∷◌, map, get_elem?,
}
use mathlib.Core.Bool.{false≢true}
use runner_controller_micros.Base.Text.{contains, concat, Includes}
use runner_controller_micros.Base.Text.Laws.{
  text_laws, ne-eq, concat-Includes-run, Includes-trans, contains-All,
}
use runner_controller_micros.Base.Floats.{Floats}
use runner_controller_micros.Python.{algorithm_names}
use runner_controller_micros.Gp.Config.{Gp}
use runner_controller_micros.Gp.Parts.{primitive, call_algo}

abbrev pub operator_names : List String
operator_names = "add" ∷ "sub" ∷ "mul" ∷ "div" ∷ "neg" ∷ "cos" ∷ "sin" ∷ "lf" ∷ []

pub some-injective : {A : Type 0} {x y : A} → some x ≡ some y → x ≡ y
some-injective h = cc

pub get_elem?-map :
    {A B : Type 0} (f : A → B) (n : ℕ) (xs : List A) {x : A}
    → get_elem? xs n ≡ some x
    → get_elem? (map f xs) n ≡ some (f x)
get_elem?-map f n [] h = cc
get_elem?-map f zero (y ∷ ys) h = cc
get_elem?-map f (suc n) (y ∷ ys) h = get_elem?-map f n ys h

-- A text that a list does not contain is not its first, nor in the rest.
contains-cons_false :
    (x : String) (xs : List String) (op : String)
    → contains (x ∷ xs) op ≡ false
    → ((op == x) ≡ false) × (contains xs op ≡ false)
unfolding contains
contains-cons_false x xs op h = elim (Bool-cases (x == op)) [
  | inl e ↦ absurd (false≢true (sym (rw e at h)))
  | inr e ↦ (ne-eq (λ same. false≢true (sym e ∙ (eq_iff x op).1 (sym same))), rw e at h)
]

pub unknown_primitive :
    (op : String) → contains operator_names op ≡ false → primitive op ≡ ("%!s(<nil>)", "%!d(<nil>)")
unknown_primitive op h =
    let (e1, h1) = contains-cons_false _ _ op h in
    let (e2, h2) = contains-cons_false _ _ op h1 in
    let (e3, h3) = contains-cons_false _ _ op h2 in
    let (e4, h4) = contains-cons_false _ _ op h3 in
    let (e5, h5) = contains-cons_false _ _ op h4 in
    let (e6, h6) = contains-cons_false _ _ op h5 in
    let (e7, h7) = contains-cons_false _ _ op h6 in
    let (e8, _) = contains-cons_false _ _ op h7 in rw (e1, e2, e3, e4, e5, e6, e7, e8) refl

abbrev pub nil_line : String
nil_line = "pset.addPrimitive(%!s(<nil>), %!d(<nil>))\n"

abbrev pub calls : String → String
calls a = "\tpop, logbook = algorithms." <> (a <> "(")

call_starts :
    (a x : String) (tail : List String)
    → Includes (concat ("\tpop, logbook = algorithms." ∷ a ∷ ("(" <> x) ∷ tail)) (calls a)
unfolding concat
call_starts a x tail = ("", x <> concat tail, simp text_laws)

pub call_algo-calls :
    (F : Floats) (gp : Gp F)
    → contains algorithm_names gp.algorithm ≡ true
    → Includes (call_algo F gp) (calls gp.algorithm)
unfolding call_algo
call_algo-calls F gp h =
    contains-All (λ a. Includes (call_algo F (record gp { algorithm = a })) (calls a))
      algorithm_names gp.algorithm
      (
        call_starts "eaSimple" "pop, toolbox, cxpb=" _,
        (
          call_starts "eaMuPlusLambda" "pop, toolbox, mu=" _,
          (
            call_starts "eaMuCommaLambda" "pop, toolbox, mu=" _,
            (
              Includes-trans (calls "eaGenerateUpdate") (concat-Includes-run 8 3 _)
                  (call_starts "eaGenerateUpdate" "toolbox, ngen=" []),
              (call_starts "de" "pop, toolbox, cxpb=" _, tt),
            ),
          ),
        ),
      )
      h
