-- ===== src/Tests/Server.antt =====
-- A process with the default settings, and a second one without Redis.
use runner_controller_micros.Base.{ℕ, zero, suc, ◌≡◌, refl, ◌↔◌, Option, none, some, [], String}
use runner_controller_micros.Service.World.{given}
use runner_controller_micros.Logger.Levels.{init_logger}
use runner_controller_micros.Server.Routes.{
  Mux, mux, create_ea, find, handle_all, handle_func, is_registered,
}
use runner_controller_micros.Server.Redis.{Library, connect, connect_to, pinged}
use runner_controller_micros.Server.Process.{
  panicked, World, main, with_logger, connected, serve_until_done, close_clients,
}
use runner_controller_micros.Server.Endpoints.{address, routed}
use runner_controller_micros.Server.Lifecycle.{Ends, main-Ends}

abbrev local : Library
local = record {
  parse_url = λ url. given "localhost:6379";
  ping = λ n addr. none;
  close = λ n. none;
}

abbrev default_world : World
default_world = record { getenv = λ v. ""; redis = local; shut_down = some "timeout" }

main-Ends_example : Ends default_world
main-Ends_example = main-Ends default_world

-- An unknown environment leaves a nil logger.
unknown_environment : main (record default_world { getenv = λ v. "STAGING" }) ≡ ([], panicked)
unfolding main with_logger init_logger
unknown_environment = refl

-- A first connection that fails goes unnoticed until its client is closed.
first_ping_fails : ℕ → String → Option String
first_ping_fails zero addr = some "refused"
first_ping_fails (suc n) addr = none

nil_client :
    (main (record default_world { redis = record local { ping = first_ping_fails } })).1 ≡ panicked
unfolding main with_logger init_logger connect connect_to pinged first_ping_fails connected
    serve_until_done close_clients mux handle_all handle_func is_registered
nil_client = refl

routed_example :
    (m : Mux) × (mux ≡ some m)
    × ((find m "/api/ea" ≡ some create_ea) ↔ ("/api/ea" ≡ address create_ea))
routed_example = routed "/api/ea" create_ea
