-- ===== src/Server/Endpoints.antt =====
-- The routes that main.go registers.
use runner_controller_micros.Base.{
  ◌≡◌, refl, sym, ap, ◌∙◌, ◌↔◌, String, ◌==◌, Bool-cases, none, some, List, [], ◌∷◌, inl, inr,
  eq_iff,
}
use runner_controller_micros.Server.Routes.{
  Endpoint, test, create_ea, create_gp, create_ml, create_pso, user_runs, share_run, user_run, logs,
  Mux, find, is_registered, handle_func, handle_all, mux,
}

-- The address of each handler.
abbrev pub address : Endpoint → String
address test = "/api/test"
address create_ea = "/api/ea"
address create_gp = "/api/gp"
address create_ml = "/api/ml"
address create_pso = "/api/pso"
address user_runs = "/api/runs"
address share_run = "/api/runs/share"
address user_run = "/api/runs/run"
address logs = "/api/runs/logs"

some-injective : {g h : Endpoint} → some g ≡ some h → g ≡ h
some-injective e = cc

none-ne-some : {h : Endpoint} → none ≡ some h → ⊥
none-ne-some e = cc

-- Every entry of the table has the address of its handler.
abbrev HasAddresses : Mux → Type 0
HasAddresses [] = Unit
HasAddresses ((p, h) ∷ m) = (p ≡ address h) × HasAddresses m

find-address :
    (m : Mux) (p : String) (h : Endpoint) → HasAddresses m → find m p ≡ some h → p ≡ address h
unfolding find
find-address [] p h a e = absurd (none-ne-some e)
find-address ((q, g) ∷ m) p h a e = elim (Bool-cases (q == p)) [
  | inl same ↦ sym ((eq_iff q p).0 same) ∙ a.0 ∙ ap address (some-injective (rw same at e))
  | inr other ↦ find-address m p h a.1 (rw other at e)
]

abbrev routes : List Endpoint → Mux
routes [] = []
routes (h ∷ hs) = (address h, h) ∷ routes hs

routes-HasAddresses : (hs : List Endpoint) → HasAddresses (routes hs)
routes-HasAddresses [] = tt
routes-HasAddresses (h ∷ hs) = (refl, routes-HasAddresses hs)

-- The route registered last comes first.
abbrev registered : List Endpoint
registered =
    logs ∷ user_run ∷ share_run ∷ user_runs ∷ create_pso ∷ create_ml ∷ create_gp ∷ create_ea ∷ test
    ∷ []

abbrev pub table : Mux
table = routes registered

pub mux-table : mux ≡ some table
unfolding mux handle_all handle_func is_registered
mux-table = refl

find_self : (h : Endpoint) → find table (address h) ≡ some h
unfolding find
find_self test = refl
find_self create_ea = refl
find_self create_gp = refl
find_self create_ml = refl
find_self create_pso = refl
find_self user_runs = refl
find_self share_run = refl
find_self user_run = refl
find_self logs = refl

-- Registering the routes does not panic, and the routes lead from a path to a handler exactly if the
-- path is the address of that handler: /api/test of Test, /api/ea of CreateEA, /api/gp of CreateGP,
-- /api/ml of CreateML, /api/pso of CreatePSO, /api/runs of UserRuns, /api/runs/share of ShareRun,
-- /api/runs/run of UserRun and /api/runs/logs of the stream of logs.
pub routed :
    (p : String) (h : Endpoint)
    → (m : Mux) × (mux ≡ some m) × ((find m p ≡ some h) ↔ (p ≡ address h))
routed p h = (
  table,
  mux-table,
  (find-address table p h (routes-HasAddresses registered), λ e. ap (find table) e ∙ find_self h),
)
