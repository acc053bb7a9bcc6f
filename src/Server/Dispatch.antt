-- ===== src/Server/Dispatch.antt =====
-- The process of main.go as it serves one request after another: the handlers behind the routes of
-- routes/api.go, with their decoders, and the state that they leave to the next request.
use runner_controller_micros.Base.{String, false, Option, none, some, List, [], ◌∷◌}
use runner_controller_micros.Base.Floats.{Floats}
use runner_controller_micros.Json.Value.{Json}
use runner_controller_micros.Service.World.{Env, Request, State}
use runner_controller_micros.Ea.Decoding.{ea_from_json}
use runner_controller_micros.Pso.Decoding.{pso_from_json}
use runner_controller_micros.Gp.Decoding.{gp_from_json}
use runner_controller_micros.Gp.Accept.{Order}
use runner_controller_micros.Ml.Decoding.{ml_from_json}
use runner_controller_micros.Service.Kinds as Kinds
use runner_controller_micros.Service.Requests.{viewed}
use runner_controller_micros.Runs.Decoding.{share_run_req_from_json, run_data_req_from_json}
use runner_controller_micros.Runs.Handlers as Handlers
use runner_controller_micros.Server.Routes.{
  Endpoint, test, create_ea, create_gp, create_ml, create_pso, user_runs, share_run, user_run, logs,
  Mux, find,
}

-- The state of a process that has just started.
abbrev pub fresh : State
fresh = record { pooled = false; trace = [] }

-- `view` reads the values of a body as JSON, `order` is that of Go's loop over a map, which differs
-- from one request to another.
module _ (F : Floats) (env : Env) (view : env.Value → Json F.Float) (order : State → Order) where
  -- The state that a handler leaves. The stream of logs only reads Redis, and has a model of its own.
  unfoldable pub handle : Endpoint → Request env.Value → State → State
  handle test req s = (Handlers.test env req s).1
  handle create_ea req s = (Kinds.create_ea F env (λ d. ea_from_json F (viewed view d)) req s).1
  handle create_gp req s =
      (Kinds.create_gp F env (order s) (λ d. gp_from_json F (viewed view d)) req s).1
  handle create_ml req s = (Kinds.create_ml F env (λ d. ml_from_json F (viewed view d)) req s).1
  handle create_pso req s = (Kinds.create_pso F env (λ d. pso_from_json F (viewed view d)) req s).1
  handle user_runs req s = (Handlers.get_runs env req s).1
  handle share_run req s =
      (Handlers.share env (λ d. share_run_req_from_json F.Float (viewed view d)) req s).1
  handle user_run req s =
      (Handlers.get_run env (λ d. run_data_req_from_json F.Float (viewed view d)) req s).1
  handle logs req s = s

  -- A path without a handler is answered by the mux.
  unfoldable pub to_handler : Option Endpoint → Request env.Value → State → State
  unfolding handle
  to_handler none req s = s
  to_handler (some h) req s = handle h req s

  unfoldable pub dispatch : Mux → String → Request env.Value → State → State
  unfolding to_handler
  dispatch m path req s = to_handler (find m path) req s

  -- The requests in turn, by their paths.
  unfoldable pub serve_all : Mux → List (String × Request env.Value) → State → State
  unfolding dispatch
  serve_all m [] s = s
  serve_all m ((path, req) ∷ rest) s = serve_all m rest (dispatch m path req s)
