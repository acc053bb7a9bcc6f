-- ===== src/Server/Settings.antt =====
-- The settings of main.go and util/redis.go, out of the variables of the environment.
use runner_controller_micros.Base.{String, ◌<>◌, ◌==◌, if◌then◌else◌}

abbrev pub or_default : String → String → String
or_default default s = if s == "" then default else s

-- `getenv` is `os.Getenv`, which gives the empty text for a variable that is not set.
module _ (getenv : String → String) where
  -- `PORT`, with its colon in front
  unfoldable pub port : String
  port = let p = ":" <> getenv "HTTP_PORT" in if p == ":" then ":5002" else p

  unfoldable pub frontend_url : String
  frontend_url = or_default "http://localhost:3000" (getenv "FRONTEND_URL")

  unfoldable pub redis_url : String
  redis_url = or_default "redis://localhost:6379/0" (getenv "REDIS_URL")
