-- ===== src/Logger/Levels.antt =====
-- The methods of `LoggerService` of util/logger.go: the entries that each of them writes. The time of
-- an entry is left out.
use runner_controller_micros.Base.{
  ◌<>◌, String, Option, none, some, List, [], ◌∷◌, ◌==◌, if◌then◌else◌,
}
use runner_controller_micros.Logger.Client.{Request, client_ip}
use runner_controller_micros.Service.World.{Reply, given, refused}

pub data Level : Type 0 where
  debug_level : Level
  info_level : Level
  warn_level : Level
  error_level : Level
  fatal_level : Level

-- What `enrich` adds to an entry.
pub record Origin (Query : Type 0) : Type 0 where
  pub route : String
  pub method : String
  pub query_params : Query
  pub ip : String
  pub user_agent : String

-- `panicked` has the panic value, as it is printed, and the trace.
pub record Entry (Query : Type 0) : Type 0 where
  pub level : Level
  pub error : Option String
  pub panicked : Option (String × String)
  pub origin : Option (Origin Query)
  pub message : String

pub record Logger : Type 0 where
  pub env : String

abbrev pub development : String
development = "DEVELOPMENT"

abbrev pub production : String
production = "PRODUCTION"

-- `InitLogger`
unfoldable pub init_logger : String → Reply Logger
init_logger env =
    if env == ""
    then given (record { env = development })
    else if env == development
    then given (record { env = env })
    else if env == production
    then given (record { env = env })
    else refused ("invalid environment for logger setup: " <> env)

module _ {Query : Type 0} where
  unfoldable pub enrich : Request Query → Origin Query
  enrich req = record {
    route = req.path;
    method = req.method;
    query_params = req.query;
    ip = client_ip req;
    user_agent = req.get "User-Agent";
  }

  abbrev entry : Level → Option String → Option (Origin Query) → String → List (Entry Query)
  entry l e o m = record { level = l; error = e; panicked = none; origin = o; message = m } ∷ []

  -- `DebugCtx`, which the production environment silences
  unfoldable pub debug_ctx : Logger → Request Query → String → List (Entry Query)
  debug_ctx l req msg =
      if l.env == production then [] else entry debug_level none (some (enrich req)) msg

  -- `InfoCtx`
  unfoldable pub info_ctx : Logger → Request Query → String → List (Entry Query)
  info_ctx l req msg = entry info_level none (some (enrich req)) msg

  -- `WarnCtx`
  unfoldable pub warn_ctx : Logger → Request Query → String → List (Entry Query)
  warn_ctx l req msg = entry warn_level none (some (enrich req)) msg

  -- `ErrorCtx`
  unfoldable pub error_ctx : Logger → Request Query → String → String → List (Entry Query)
  error_ctx l req msg err = entry error_level (some err) (some (enrich req)) msg

  -- `FatalCtx`
  unfoldable pub fatal_ctx : Logger → Request Query → String → String → List (Entry Query)
  fatal_ctx l req msg err = entry fatal_level (some err) (some (enrich req)) msg

  -- `PanicCtx`
  unfoldable pub panic_ctx : Logger → Request Query → String → String → String → List (Entry Query)
  panic_ctx l req msg value trace =
      record {
        level = info_level;
        error = none;
        panicked = some (value, trace);
        origin = some (enrich req);
        message = msg;
      }
      ∷ []

  -- `SuccessCtx`
  unfoldable pub success_ctx : Logger → Request Query → List (Entry Query)
  success_ctx l req = entry info_level none (some (enrich req)) "request successful"

  -- `Debug`
  unfoldable pub debug : Logger → String → List (Entry Query)
  debug l msg = if l.env == production then [] else entry debug_level none none msg

  -- `Info`
  unfoldable pub info : Logger → String → List (Entry Query)
  info l msg = entry info_level none none msg

  -- `Warn`
  unfoldable pub warn : Logger → String → List (Entry Query)
  warn l msg = entry info_level none none msg

  -- `Error`
  unfoldable pub error : Logger → String → String → List (Entry Query)
  error l msg err = entry info_level (some err) none msg

  -- `Fatal`
  unfoldable pub fatal : Logger → String → String → List (Entry Query)
  fatal l msg err = entry fatal_level (some err) none msg
