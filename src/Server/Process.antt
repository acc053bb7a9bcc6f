-- ===== src/Server/Process.antt =====
-- `main` of main.go, from the start of the process to its end.
use runner_controller_micros.Base.{
  ℕ, String, Bool, true, Option, none, some, List, [], ◌∷◌, if◌then◌else◌,
}
use runner_controller_micros.Service.World.{Reply, given, refused}
use runner_controller_micros.Logger.Levels.{Logger, init_logger}
use runner_controller_micros.Sse.Stream as Stream
use runner_controller_micros.Sse.Stream.{Status, closed, Conn, start, error_reply}
use runner_controller_micros.Sse.Handler.{deliver, serve}
use runner_controller_micros.Server.Settings.{port, frontend_url, redis_url}
use runner_controller_micros.Server.Routes.{Mux, mux}
use runner_controller_micros.Server.Redis.{Library, connect}

-- What a process does that others see. `listen` has the address, the origin that CORS allows, the
-- routes, and whether the stream of logs has a client of Redis.
pub data Event : Type 0 where
  listen : String → String → Mux → Bool → Event
  stop_server : Option String → Event
  close_client : Option String → Event

-- How it ends: with a status, or by a panic.
pub data End : Type 0 where
  exited : ℕ → End
  panicked : End

abbrev pub Run : Type 0
Run = List Event × End

abbrev pub after : Event → Run → Run
after e (events, end) = (e ∷ events, end)

-- What the process meets: `shut_down` is the error of `server.Shutdown`, after a signal or an error
-- of the listener has ended the context.
pub record World : Type 0 where
  pub getenv : String → String
  pub redis : Library
  pub shut_down : Option String

-- `GetSSEHandler`: a handler for a client of Redis that is not nil.
unfoldable pub get_sse_handler : Bool → Stream.Env → ℕ → String → String → Status × Conn
get_sse_handler connected env fuel query header =
    if connected then serve env fuel query header else (
      closed,
      deliver (error_reply 500 "Internal Server Error: Redis client not configured") start,
    )

module _ (w : World) where
  -- The client that main.go keeps is closed first; a nil one panics. Then that of util/redis.go.
  unfoldable pub close_clients : Reply String → Run
  close_clients (refused e) = ([], panicked)
  close_clients (given addr) =
      after (close_client (w.redis.close 0)) (after (close_client (w.redis.close 1)) ([], exited 0))

  unfoldable pub serve_until_done : Reply String → Option Mux → Run
  unfolding close_clients
  serve_until_done client none = ([], panicked)
  serve_until_done client (some m) =
      after (listen (port w.getenv) (frontend_url w.getenv) m true)
        (after (stop_server w.shut_down) (close_clients client))

  -- The error of the second connection is looked at, that of the first is not.
  unfoldable pub connected : Reply String → Reply String → Run
  unfolding serve_until_done
  connected client (refused e) = ([], exited 1)
  connected client (given addr) = serve_until_done client mux

  -- The error of `InitLogger` is not looked at: the logger is nil, and it is dereferenced next.
  unfoldable pub with_logger : Reply Logger → Run
  unfolding connected
  with_logger (refused e) = ([], panicked)
  with_logger (given l) =
      connected (connect w.redis 0 (redis_url w.getenv)) (connect w.redis 1 (redis_url w.getenv))

  -- `main`
  unfoldable pub main : Run
  unfolding with_logger
  main = with_logger (init_logger (w.getenv "ENV"))
