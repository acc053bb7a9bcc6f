-- ===== src/Server/Routes.antt =====
-- The routes of routes/api.go, with the handlers that main.go registers for them.
use runner_controller_micros.Base.{
  String, ◌<>◌, ◌==◌, Bool, false, ◌||◌, Option, none, some, List, [], ◌∷◌, if◌then◌else◌,
}

abbrev pub base : String
base = "/api"

abbrev pub runs : String
runs = base <> "/runs"

-- `TEST`, `EA`, `GP`, `ML`, `PSO`, `SHARE_RUN`, `RUN` and `LOGS`; `RUNS` is above
abbrev pub test_route : String
test_route = base <> "/test"

abbrev pub ea_route : String
ea_route = base <> "/ea"

abbrev pub gp_route : String
gp_route = base <> "/gp"

abbrev pub ml_route : String
ml_route = base <> "/ml"

abbrev pub pso_route : String
pso_route = base <> "/pso"

abbrev pub share_run_route : String
share_run_route = runs <> "/share"

abbrev pub run_route : String
run_route = runs <> "/run"

abbrev pub logs_route : String
logs_route = runs <> "/logs"

-- The handlers, by their functions of controller/ and modules/sse.
pub data Endpoint : Type 0 where
  test create_ea create_gp create_ml create_pso user_runs share_run user_run logs : Endpoint

abbrev pub Mux : Type 0
Mux = List (String × Endpoint)

-- The handler that an `http.ServeMux` finds for a path: these patterns have no slash at their end, so
-- each stands for its own path only.
unfoldable pub find : Mux → String → Option Endpoint
find [] p = none
find ((pattern, h) ∷ mux) p = if pattern == p then some h else find mux p

unfoldable pub is_registered : Mux → String → Bool
is_registered [] p = false
is_registered ((pattern, h) ∷ mux) p = pattern == p || is_registered mux p

-- `mux.HandleFunc`, which panics for a pattern that is there already: `none`.
unfoldable pub handle_func : Option Mux → String → Endpoint → Option Mux
unfolding is_registered
handle_func none pattern h = none
handle_func (some mux) pattern h =
    if is_registered mux pattern then none else some ((pattern, h) ∷ mux)

unfoldable pub handle_all : Option Mux → List (String × Endpoint) → Option Mux
handle_all mux [] = mux
handle_all mux ((pattern, h) ∷ rest) = handle_all (handle_func mux pattern h) rest

-- What main.go registers, in its order.
abbrev pub route_handlers : List (String × Endpoint)
route_handlers =
    (test_route, test)
    ∷ (ea_route, create_ea)
    ∷ (gp_route, create_gp)
    ∷ (ml_route, create_ml)
    ∷ (pso_route, create_pso)
    ∷ (runs, user_runs)
    ∷ (share_run_route, share_run)
    ∷ (run_route, user_run)
    ∷ (logs_route, logs)
    ∷ []

unfoldable pub mux : Option Mux
unfolding handle_all handle_func
mux = handle_all (some []) route_handlers
