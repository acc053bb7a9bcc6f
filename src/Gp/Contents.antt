-- ===== src/Gp/Contents.antt =====
-- What the program that `Code` of modules/gp.go gives contains.
use runner_controller_micros.Base.{
  ℕ, ◌≡◌, refl, ◌∙◌, ap, subst, String, ◌<>◌, map, false, some, get_elem?,
}
use runner_controller_micros.Base.Int.{pos}
use runner_controller_micros.Base.Decimal.{fmt_d}
use runner_controller_micros.Base.Text.{contains, concat, Includes}
use runner_controller_micros.Base.Text.Laws.{concat-Includes, Includes-trans, Includes-refl}
use runner_controller_micros.Base.Outcome.{ok}
use runner_controller_micros.Base.Floats.{Floats}
use runner_controller_micros.Gp.Config.{Gp}
use runner_controller_micros.Gp.Parts.{
  primitive, primitive_line, add_primitives, arg_entries, arg_text, trimmed, rename_args, call_algo,
}
use runner_controller_micros.Gp.Program.{program, program_pieces, code}
use runner_controller_micros.Gp.Accept.{Order, code-ok}
use runner_controller_micros.Gp.Operators.{
  operator_names, get_elem?-map, unknown_primitive, nil_line, call_algo-calls,
}
use runner_controller_micros.Gp.Arguments.{
  quoted, Visits, trimmed-Includes, arg_entries-get, add_left_zero,
}

module _ (F : Floats) (order : Order) (visits : Visits order) (gp : Gp F) (s : String)
    (ran : code F order gp ≡ ok s) where
  in_program :
      (n : ℕ) (piece t : String)
      → get_elem? (program_pieces F gp (order (arg_entries 0 gp.arg_names))) n ≡ some piece
      → Includes piece t
      → Includes s t
  unfolding program
  in_program n piece t here i =
      rw ((code-ok F order gp s ran).1) (Includes-trans t (concat-Includes n _ here) i)

  first_entries :
      (i : ℕ) (name : String)
      → get_elem? gp.arg_names i ≡ some name
      → get_elem? (arg_entries 0 gp.arg_names) i ≡ some ("ARG" <> fmt_d (pos i), name)
  first_entries i name h =
      arg_entries-get 0 i gp.arg_names name h
      ∙ ap (λ m. some ("ARG" <> fmt_d (pos m), name)) (add_left_zero i)

  -- In a program that `Code` returns, the statement that renames the arguments follows right after the
  -- map that it uses, and the map has an entry that gives the argument at each position the name
  -- that the request has there, in whichever order the loop visits the entries.
  pub arguments_renamed :
      (i : ℕ) (name : String)
      → get_elem? gp.arg_names i ≡ some name
      → (entries : String) × Includes s
          ("arg_dict = {" <> (entries <> ("}\n" <> "pset.renameArguments(**arg_dict)\n\n")))
        × Includes entries (quoted ("ARG" <> fmt_d (pos i), name))
  unfolding program_pieces
  arguments_renamed i name h =
      let entries = order (arg_entries 0 gp.arg_names) in
      let (m, e) = visits (arg_entries 0 gp.arg_names) i _ (first_entries i name h) in
      (
        trimmed (concat (map arg_text entries)),
        in_program 16 (rename_args entries) _ refl
            (unfold rename_args in (unfold concat in (Includes-refl _))),
        trimmed-Includes entries m _ e,
      )

  -- Every operator of the request adds a primitive to the program that `Code` returns: an operator
  -- of the table the primitive of the table, any other a line that is no Python, in which the name
  -- and the arity are the text that Go prints for nil.
  pub primitives_added :
      (n : ℕ) (op : String)
      → get_elem? gp.operators n ≡ some op
      → Includes s (primitive_line (primitive op))
        × (contains operator_names op ≡ false → Includes s nil_line)
  unfolding program_pieces add_primitives concat
  primitives_added n op h =
      let added : Includes s (primitive_line (primitive op)) =
        in_program 13 (add_primitives gp.operators) _ refl (
          concat-Includes n _
            (get_elem?-map (λ o. primitive_line (primitive o)) n gp.operators h)) in
      (
        added,
        λ unknown. subst (λ p. Includes s (primitive_line p)) (unknown_primitive op unknown) added,
      )

  -- A program that `Code` returns calls the algorithm of the request by its name, also for `de`,
  -- which the module `algorithms` of DEAP does not have.
  pub algorithm_called : Includes s ("\tpop, logbook = algorithms." <> (gp.algorithm <> "("))
  unfolding program_pieces
  algorithm_called =
      in_program 69 (call_algo F gp) _ refl (call_algo-calls F gp ((code-ok F order gp s ran).0))
