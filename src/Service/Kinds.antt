-- ===== src/Service/Kinds.antt =====
-- The handlers `CreateEA` of controller/ea.go, `CreatePSO` of controller/pso.go, `CreateGP` of
-- controller/gp.go and `CreateML` of controller/ml.go: the handler of Service/Create, with the
-- generator and the columns of each.
use runner_controller_micros.Base.{◌==◌, Option, if◌then◌else◌}
use runner_controller_micros.Base.Floats.{Floats}
use runner_controller_micros.Ea.Config.{Ea}
use runner_controller_micros.Ea.Program as Ea_program
use runner_controller_micros.Pso.Config.{Pso}
use runner_controller_micros.Pso.Program as Pso_program
use runner_controller_micros.Gp.Config.{Gp}
use runner_controller_micros.Gp.Accept.{Order}
use runner_controller_micros.Gp.Program as Gp_program
use runner_controller_micros.Ml.Config.{Eaml}
use runner_controller_micros.Ml.Program as Ml_program
use runner_controller_micros.Service.World.{
  Fields, Reply, Data, Env, Request, Response, State, Kind,
}
use runner_controller_micros.Service.Create.{create}

-- What a handler says of its algorithm, given the JSON decoder.
abbrev pub ea_kind : (F : Floats) (V : Type 0) → (Data V → Reply (Ea F)) → Kind V
ea_kind F V from_json = record {
  Req = Ea F;
  from_json = from_json;
  code = Ea_program.code F;
  generations = λ ea. ea.generations;
  population_size = λ ea. ea.population_size;
  description = λ ea.
      if ea.algorithm == "de" then "Differential Evolution (DE)" else "Evolutionary Algorithm (EA)";
  run_type = "ea";
  command = "python -m scoop code.py";
}

abbrev pub pso_kind : (F : Floats) (V : Type 0) → (Data V → Reply (Pso F)) → Kind V
pso_kind F V from_json = record {
  Req = Pso F;
  from_json = from_json;
  code = λ pso. (Pso_program.code F pso, pso);
  generations = λ pso. pso.generations;
  population_size = λ pso. pso.population_size;
  description = λ pso. "Particle Swarm Optimization";
  run_type = "pso";
  command = "python code.py";
}

-- `order` is that in which the generator's loop over a map visits the entries.
abbrev pub gp_kind : (F : Floats) (V : Type 0) → Order → (Data V → Reply (Gp F)) → Kind V
gp_kind F V order from_json = record {
  Req = Gp F;
  from_json = from_json;
  code = λ gp. (Gp_program.code F order gp, gp);
  generations = λ gp. gp.generations;
  population_size = λ gp. gp.population_size;
  description = λ gp. "Genetic Programming (GP)";
  run_type = "gp";
  command = "python -m scoop code.py";
}

abbrev pub ml_kind : (F : Floats) (V : Type 0) → (Data V → Reply (Eaml F)) → Kind V
ml_kind F V from_json = record {
  Req = Eaml F;
  from_json = from_json;
  code = λ ml. (Ml_program.code F ml, ml);
  generations = λ ml. ml.generations;
  population_size = λ ml. ml.population_size;
  description = λ ml. "Optimize ML with EA";
  run_type = "ml";
  command = "python -m scoop code.py";
}

module _ (F : Floats) (env : Env) where
  -- `CreateEA`
  unfoldable pub create_ea :
      (Data env.Value → Reply (Ea F))
      → Request env.Value
      → State
      → Option (Response (Fields env.Value)) × State
  create_ea from_json req s = create env (ea_kind F env.Value from_json) req s

  -- `CreatePSO`
  unfoldable pub create_pso :
      (Data env.Value → Reply (Pso F))
      → Request env.Value
      → State
      → Option (Response (Fields env.Value)) × State
  create_pso from_json req s = create env (pso_kind F env.Value from_json) req s

  -- `CreateGP`
  unfoldable pub create_gp :
      Order
      → (Data env.Value → Reply (Gp F))
      → Request env.Value
      → State
      → Option (Response (Fields env.Value)) × State
  create_gp order from_json req s = create env (gp_kind F env.Value order from_json) req s

  -- `CreateML`
  unfoldable pub create_ml :
      (Data env.Value → Reply (Eaml F))
      → Request env.Value
      → State
      → Option (Response (Fields env.Value)) × State
  create_ml from_json req s = create env (ml_kind F env.Value from_json) req s
