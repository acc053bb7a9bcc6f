-- ===== src/Gp/Arguments.antt =====
-- The text that `renameArgs` of modules/gp.go writes.
use runner_controller_micros.Base.{
  ◌<◌, ℕ, zero, suc, ◌+◌, ◌≡◌, sym, ◌∙◌, ap, subst, String, ◌<>◌, true, some, List, [], ◌∷◌, map,
  get_elem?, arith, ltb,
}
use runner_controller_micros.Base.Int.{pos}
use runner_controller_micros.Base.Decimal.{fmt_d}
use runner_controller_micros.Base.Text.{concat, byte_length, drop_last, Includes}
use runner_controller_micros.Base.Text.Laws.{
  text_laws, Includes-append_right, Includes-refl, Includes-append_left, byte_length-append,
  drop_last-append,
}
use text.Mathlib.TextLemmas.{append_assoc}
use runner_controller_micros.Gp.Parts.{arg_entries, arg_text, trimmed}
use runner_controller_micros.Gp.Accept.{Order}
use runner_controller_micros.Gp.Operators.{some-injective}

-- An entry that a loop over the map visits stands in the text, without its comma.
abbrev pub quoted : String × String → String
quoted (k, v) = concat ("'" ∷ k ∷ "': '" ∷ v ∷ "'" ∷ [])

arg_text-quoted : (e : String × String) → arg_text e ≡ quoted e <> ", "
unfolding concat
arg_text-quoted (k, v) = simp text_laws

-- Any entries but none end in a comma and a space, and the entries stand before.
joined :
    (e : String × String) (es : List (String × String))
    → (u : String) × (concat (map arg_text (e ∷ es)) ≡ u <> ", ")
      × ((n : ℕ) (x : String × String) → get_elem? (e ∷ es) n ≡ some x → Includes u (quoted x))
unfolding concat
joined e [] = (quoted e, rw (arg_text-quoted e) (simp text_laws), λ n x h. only n x h)
  where
    only :
        (n : ℕ) (x : String × String)
        → get_elem? (e ∷ []) n ≡ some x
        → Includes (quoted e) (quoted x)
    only zero x h = subst (λ y. Includes (quoted e) (quoted y)) (some-injective h) (Includes-refl _)
    only (suc n) x h = cc
joined e (d ∷ ds) =
    let (u, p, has) = joined d ds in
    (
      arg_text e <> u,
      ap (λ t. arg_text e <> t) p ∙ sym (append_assoc (arg_text e) u ", "),
      λ n x h. each u has n x h,
    )
  where
    each :
        (u : String)
        → ((n : ℕ) (x : String × String) → get_elem? (d ∷ ds) n ≡ some x → Includes u (quoted x))
        → (n : ℕ) (x : String × String) → get_elem? (e ∷ d ∷ ds) n ≡ some x
        → Includes (arg_text e <> u) (quoted x)
    each u has zero x h =
        subst (λ y. Includes (arg_text e <> u) (quoted y)) (some-injective h)
          (Includes-append_left _ u _ (
            subst (λ t. Includes t (quoted e)) (sym (arg_text-quoted e))
              (Includes-append_left _ ", " _ (Includes-refl _))))
    each u has (suc n) x h = Includes-append_right _ u _ (has n x h)

long_enough : (n : ℕ) → 2 < n → ltb 2 n ≡ true
long_enough n h = ground arith

byte_length-arg_text : (e : String × String) (rest : String) → 2 < byte_length (arg_text e <> rest)
unfolding concat byte_length
byte_length-arg_text (k, v) rest = rw (byte_length-append (arg_text (k, v)) rest) (
    rw (byte_length-append "'" (k <> ("': '" <> (v <> ("', " <> ""))))) (
      rw (byte_length-append k ("': '" <> (v <> ("', " <> ""))))
        (rw (byte_length-append "': '" (v <> ("', " <> ""))) (omega arith))))

trimmed-append : (u : String) → 2 < byte_length (u <> ", ") → trimmed (u <> ", ") ≡ u
unfolding trimmed
trimmed-append u long = rw (long_enough _ long) (
    ap drop_last (ap drop_last (sym (append_assoc u "," " ")) ∙ drop_last-append (u <> ",") " ")
    ∙ drop_last-append u ",")

pub trimmed-Includes :
    (es : List (String × String)) (n : ℕ) (x : String × String)
    → get_elem? es n ≡ some x
    → Includes (trimmed (concat (map arg_text es))) (quoted x)
unfolding concat
trimmed-Includes [] n x h = cc
trimmed-Includes (e ∷ es) n x h =
    let (u, p, has) = joined e es in
    rw p (
      rw
        (trimmed-append u
          (subst (λ t. 2 < byte_length t) p (byte_length-arg_text e (concat (map arg_text es)))))
        (has n x h))

pub add_left_zero : (i : ℕ) → 0 + i ≡ i
add_left_zero i = omega arith

pub arg_entries-get :
    (i n : ℕ) (names : List String) (name : String)
    → get_elem? names n ≡ some name
    → get_elem? (arg_entries i names) n ≡ some ("ARG" <> fmt_d (pos (i + n)), name)
unfolding arg_entries
arg_entries-get i n [] name h = cc
arg_entries-get i zero (y ∷ ys) name h =
    rw (some-injective h) (ap (λ m. some ("ARG" <> fmt_d (pos m), name)) (omega arith))
arg_entries-get i (suc n) (y ∷ ys) name h =
    arg_entries-get (suc i) n ys name h
    ∙ ap (λ m. some ("ARG" <> fmt_d (pos m), name)) (omega arith)

-- A loop over a map visits every entry, in whichever order.
abbrev pub Visits : Order → Type 0
Visits order =
    (es : List (String × String)) (n : ℕ) (e : String × String)
    → get_elem? es n ≡ some e
    → (m : ℕ) × (get_elem? (order es) m ≡ some e)
