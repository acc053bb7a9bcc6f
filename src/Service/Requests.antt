-- ===== src/Service/Requests.antt =====
-- The handlers that create a run with the functions that make the requests out of decoded JSON:
-- EAFromJSON, PSOFromJSON, GPFromJSON and MLFromJSON.
use runner_controller_micros.Base.{
  ◌≡◌, ◌≢◌, sym, ap, ◌∙◌, String, true, Option, none, some, map, inl, inr,
}
use runner_controller_micros.Base.Text.{contains}
use runner_controller_micros.Base.Outcome.{Outcome, ok, err, panic, err-ne-ok}
use runner_controller_micros.Base.Floats.{Floats, IsLawful}
use mathlib.Core.Bool.{false≢true}
use runner_controller_micros.Python.{algorithm_names}
use runner_controller_micros.Json.Value.{Json}
use runner_controller_micros.Json.Struct.{from_json}
use runner_controller_micros.Json.Keeps.{given-injective}
use runner_controller_micros.Ea.Config.{Ea}
use runner_controller_micros.Ea.Decoding.{ea_from_json}
use runner_controller_micros.Ea.Program as Ea_program
use runner_controller_micros.Ea.Accept as Ea_accept
use runner_controller_micros.Pso.Config.{Pso, swarm_algorithms}
use runner_controller_micros.Pso.Decoding.{pso_from_json}
use runner_controller_micros.Pso.Program as Pso_program
use runner_controller_micros.Pso.Accept.{code-ok-IsSound}
use runner_controller_micros.Gp.Config.{Gp}
use runner_controller_micros.Gp.Decoding.{gp_from_json}
use runner_controller_micros.Gp.Program as Gp_program
use runner_controller_micros.Gp.Parts.{arg_entries}
use runner_controller_micros.Gp.Config as Gp_config
use runner_controller_micros.Gp.Accept as Gp_accept
use runner_controller_micros.Ml.Config.{Eaml}
use runner_controller_micros.Ml.Decoding.{ml_from_json}
use runner_controller_micros.Ml.Program as Ml_program
use runner_controller_micros.Ml.Config as Ml_config
use runner_controller_micros.Ml.Contents as Ml_contents
use runner_controller_micros.Service.World.{Data, given, Env, Request, State}
use runner_controller_micros.Service.Kinds.{
  ea_kind, pso_kind, gp_kind, ml_kind, create_ea, create_pso, create_gp, create_ml,
}
use runner_controller_micros.Service.Panics.{IsAnswered, create_answers}

-- A map of values, seen as JSON.
abbrev pub viewed : {V N : Type 0} → (V → Json N) → Data V → Data (Json N)
viewed view none = none
viewed view (some m) = some (map (λ e. (e.0, view e.1)) m)

ok-ne-panic : {s : String} → ok s ≡ panic → ⊥
ok-ne-panic h = cc

err-ne-panic : {s : String} → ◌≡◌ {A = Outcome String} (err s) panic → ⊥
err-ne-panic h = cc

no_empty_name : contains algorithm_names "" ≢ true
unfolding contains
no_empty_name h = false≢true h

module _ (F : Floats) where
  pub ea_code-ne-panic : IsLawful F → (ea : Ea F) → (Ea_program.code F ea).0 ≢ panic
  ea_code-ne-panic L ea h = elim (Ea_accept.code_total F L ea) [
    | inl (_, s, e) ↦ ok-ne-panic (ap (λ z. z.0) (sym e) ∙ h)
    | inr (_, e) ↦ err-ne-panic (ap (λ z. z.0) (sym e) ∙ h)
  ]

  pso_code-ne-panic : (pso : Pso F) → Pso_program.code F pso ≢ panic
  pso_code-ne-panic pso h = elim (code-ok-IsSound F pso) [
    | inl (_, e) ↦ ok-ne-panic (sym e ∙ h)
    | inr (_, m, e) ↦ err-ne-panic (sym e ∙ h)
  ]

  gp_code-ne-panic : (order : Gp_accept.Order) (gp : Gp F) → Gp_program.code F order gp ≢ panic
  unfolding Gp_program.code
  gp_code-ne-panic order gp = go (Gp_config.validate F gp)
    where
      go :
          (o : Option String)
          → Gp_program.after_validate F o gp (order (arg_entries 0 gp.arg_names)) ≢ panic
      go none = ok-ne-panic
      go (some m) = err-ne-panic

  ml_code-ne-panic : (ml : Eaml F) → Ml_program.code F ml ≢ panic
  unfolding Ml_program.code
  ml_code-ne-panic ml = go (Ml_config.validate F ml)
    where
      go : (o : Option String) → Ml_program.after_validate F o ml ≢ panic
      go none = ok-ne-panic
      go (some m) = err-ne-panic

  -- An empty request has no algorithm, so there is no program for it.
  ea_refuses :
      IsLawful F
      → (q : Ea F) (text : String) (q' : Ea F) → ea_from_json F none ≡ given q
      → Ea_program.code F q ≡ (ok text, q')
      → ⊥
  unfolding ea_from_json from_json
  ea_refuses L q text q' e c =
      let (_, known, _, _) = Ea_accept.code-ok F L q text (ap (λ z. z.0) c) in
      no_empty_name (ap (λ r. contains algorithm_names r.algorithm) (given-injective e) ∙ known)

  pso_refuses :
      (q : Pso F) (text : String)
      → pso_from_json F none ≡ given q
      → Pso_program.code F q ≡ ok text
      → ⊥
  unfolding pso_from_json from_json contains
  pso_refuses q text e c = elim (code-ok-IsSound F q) [
    | inl (sound, _) ↦
        false≢true (ap (λ r. contains swarm_algorithms r.algorithm) (given-injective e) ∙ sound.0)
    | inr (_, m, d) ↦ absurd (err-ne-ok (sym d ∙ c))
  ]

  gp_refuses :
      (order : Gp_accept.Order) (q : Gp F) (text : String)
      → gp_from_json F none ≡ given q
      → Gp_program.code F order q ≡ ok text
      → ⊥
  unfolding gp_from_json from_json
  gp_refuses order q text e c = no_empty_name (
      ap (λ r. contains algorithm_names r.algorithm) (given-injective e)
      ∙ (Gp_accept.code-ok F order q text c).0)

  ml_refuses :
      (q : Eaml F) (text : String)
      → ml_from_json F none ≡ given q
      → Ml_program.code F q ≡ ok text
      → ⊥
  unfolding ml_from_json from_json
  ml_refuses q text e c = no_empty_name (
      ap (λ r. contains algorithm_names r.algorithm) (given-injective e)
      ∙ (Ml_contents.code-ok F q text c).0)

-- Every request to create a run is answered, also one with the body `null`, whatever the other
-- programs answer, unless RabbitMQ refuses the connection or the channel: then that is the last that
-- the handler does, but for closing the connection, before it panics.
pub creations_answer :
    (F : Floats)
    → IsLawful F
    → (env : Env) (view : env.Value → Json F.Float) (order : Gp_accept.Order)
      (req : Request env.Value) (s : State)
    → IsAnswered env (create_ea F env (λ d. ea_from_json F (viewed view d)) req s)
      × IsAnswered env (create_pso F env (λ d. pso_from_json F (viewed view d)) req s)
      × IsAnswered env (create_gp F env order (λ d. gp_from_json F (viewed view d)) req s)
      × IsAnswered env (create_ml F env (λ d. ml_from_json F (viewed view d)) req s)
unfolding create_ea create_pso create_gp create_ml
creations_answer F L env view order req s = (
  create_answers env (ea_kind F env.Value (λ d. ea_from_json F (viewed view d)))
      (ea_code-ne-panic F L) (ea_refuses F L) req s,
  create_answers env (pso_kind F env.Value (λ d. pso_from_json F (viewed view d)))
      (pso_code-ne-panic F) (λ q text q' e c. pso_refuses F q text e (ap (λ z. z.0) c)) req s,
  create_answers env (gp_kind F env.Value order (λ d. gp_from_json F (viewed view d)))
      (gp_code-ne-panic F order) (λ q text q' e c. gp_refuses F order q text e (ap (λ z. z.0) c))
      req s,
  create_answers env (ml_kind F env.Value (λ d. ml_from_json F (viewed view d)))
      (ml_code-ne-panic F) (λ q text q' e c. ml_refuses F q text e (ap (λ z. z.0) c)) req s,
)
