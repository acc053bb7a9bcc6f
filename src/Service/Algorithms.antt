-- ===== src/Service/Algorithms.antt =====
-- The runs that the handlers of controller/ create, with what the generators promise of the program.
use runner_controller_micros.Base.{◌≡◌, sym, ◌∙◌, ap, String, ◌<>◌, true, some, inl, inr}
use runner_controller_micros.Base.Text.{contains, Includes}
use runner_controller_micros.Base.Outcome.{ok-injective, err-ne-ok}
use runner_controller_micros.Base.Floats.{Floats, IsLawful}
use runner_controller_micros.Python.{algorithm_names}
use runner_controller_micros.Ea.Config.{Ea}
use runner_controller_micros.Ea.Result.{qualified}
use runner_controller_micros.Ea.Accept.{code-ok}
use runner_controller_micros.Ea.Contents.{evaluate_registration}
use runner_controller_micros.Pso.Config.{Pso}
use runner_controller_micros.Pso.Program.{program}
use runner_controller_micros.Pso.Accept.{IsSound, code-ok-IsSound}
use runner_controller_micros.Gp.Config.{Gp}
use runner_controller_micros.Gp.Parts.{arg_entries}
use runner_controller_micros.Gp.Program as Gp_program
use runner_controller_micros.Gp.Accept as Gp_accept
use runner_controller_micros.Ml.Config.{Eaml}
use runner_controller_micros.Ml.Program as Ml_program
use runner_controller_micros.Ml.Contents as Ml_contents
use runner_controller_micros.Service.World.{
  Fields, Data, Reply, given, Env, Request, Response, State,
}
use runner_controller_micros.Service.Effects.{world}
use runner_controller_micros.Service.Progress.{object_name}
use runner_controller_micros.Service.Kinds.{
  ea_kind, pso_kind, gp_kind, ml_kind, create_ea, create_pso, create_gp, create_ml,
}
use runner_controller_micros.Service.Created.{create-Created}

module _ (F : Floats) (env : Env) where
  -- A swarm that is created comes from a sound request, and the object store has the program
  -- that `program` writes for it.
  pub create_pso-IsSound :
      (from_json : Data env.Value → Reply (Pso F)) (req : Request env.Value) (s : State)
      (r : Response (Fields env.Value)) (t : State)
      → create_pso F env from_json req s ≡ (some r, t)
      → r.code ≡ 200
      → (content : Data env.Value) × (pso : Pso F) × (run_id : String) × (req.body ≡ some content)
        × (from_json content ≡ given pso)
        × IsSound F pso
        × ((world t.trace).objects "code" (object_name run_id "code" "py") ≡ some (program F pso))
  unfolding create_pso
  create_pso-IsSound from_json req s r t h success =
      let c = create-Created env (pso_kind F env.Value from_json) req s r t h success in
      let p = c.prepared in
      let written = ap (λ z. z.0) p.code in
      elim (code-ok-IsSound F p.parsed) [
        | inl (sound, e) ↦ (
          c.submission.1,
          p.parsed,
          c.run_id,
          p.decoded,
          p.from_json,
          sound,
          c.program ∙ ap some (ok-injective (sym written ∙ e)),
        )
        | inr (_, m, e) ↦ absurd (err-ne-ok (sym e ∙ written))
      ]

  -- A run of an evolutionary algorithm that is created is for one of the five algorithms, and the
  -- object store has a program that registers the evaluation function of the request.
  pub create_ea-evaluates :
      IsLawful F
      → (from_json : Data env.Value → Reply (Ea F)) (req : Request env.Value) (s : State)
        (r : Response (Fields env.Value)) (t : State)
      → create_ea F env from_json req s ≡ (some r, t)
      → r.code ≡ 200
      → (content : Data env.Value) × (ea : Ea F) × (run_id text : String) × (req.body
          ≡ some content)
        × (from_json content ≡ given ea)
        × (contains algorithm_names ea.algorithm ≡ true)
        × ((world t.trace).objects "code" (object_name run_id "code" "py") ≡ some text)
        × Includes text
            ("toolbox.register(\"evaluate\", " <> (qualified F ea.evaluation_function <> ")\n"))
  unfolding create_ea
  create_ea-evaluates L from_json req s r t h success =
      let c = create-Created env (ea_kind F env.Value from_json) req s r t h success in
      let p = c.prepared in
      let written = ap (λ z. z.0) p.code in
      let (_, known, _, _) = code-ok F L p.parsed c.submission.2 written in
      (
        c.submission.1,
        p.parsed,
        c.run_id,
        c.submission.2,
        p.decoded,
        p.from_json,
        known,
        c.program,
        evaluate_registration F L p.parsed c.submission.2 written,
      )

  -- A run of genetic programming that is created is for one of the five algorithms, and the object
  -- store has the program that `program` writes for the request.
  pub create_gp-known :
      (order : Gp_accept.Order) (from_json : Data env.Value → Reply (Gp F))
      (req : Request env.Value) (s : State) (r : Response (Fields env.Value)) (t : State)
      → create_gp F env order from_json req s ≡ (some r, t)
      → r.code ≡ 200
      → (content : Data env.Value) × (gp : Gp F) × (run_id : String) × (req.body ≡ some content)
        × (from_json content ≡ given gp)
        × (contains algorithm_names gp.algorithm ≡ true)
        × ((world t.trace).objects "code" (object_name run_id "code" "py")
            ≡ some (Gp_program.program F gp (order (arg_entries 0 gp.arg_names))))
  unfolding create_gp
  create_gp-known order from_json req s r t h success =
      let c = create-Created env (gp_kind F env.Value order from_json) req s r t h success in
      let p = c.prepared in
      let (known, text) =
        Gp_accept.code-ok F order p.parsed c.submission.2 (ap (λ z. z.0) p.code) in
      (c.submission.1, p.parsed, c.run_id, p.decoded, p.from_json, known, c.program ∙ ap some text)

  -- A run for machine learning that is created is for one of the five algorithms, and the object
  -- store has the program that `program` writes for the request.
  pub create_ml-known :
      (from_json : Data env.Value → Reply (Eaml F)) (req : Request env.Value) (s : State)
      (r : Response (Fields env.Value)) (t : State)
      → create_ml F env from_json req s ≡ (some r, t)
      → r.code ≡ 200
      → (content : Data env.Value) × (ml : Eaml F) × (run_id : String) × (req.body ≡ some content)
        × (from_json content ≡ given ml)
        × (contains algorithm_names ml.algorithm ≡ true)
        × ((world t.trace).objects "code" (object_name run_id "code" "py")
            ≡ some (Ml_program.program F ml))
  unfolding create_ml
  create_ml-known from_json req s r t h success =
      let c = create-Created env (ml_kind F env.Value from_json) req s r t h success in
      let p = c.prepared in
      let (known, text) = Ml_contents.code-ok F p.parsed c.submission.2 (ap (λ z. z.0) p.code) in
      (c.submission.1, p.parsed, c.run_id, p.decoded, p.from_json, known, c.program ∙ ap some text)
