-- ===== src/Logger/Middleware.antt =====
-- `loggingResponseWriter` and `LogMiddleware` of util/logger.go. An entry has no duration.
use runner_controller_micros.Base.{
  ℕ, ◌+◌, ◌%◌, String, Bool, false, List, [], ◌∷◌, ◌++◌, nat_eq, if◌then◌else◌,
}
use runner_controller_micros.Logger.Client.{Request}
use runner_controller_micros.Logger.Levels.{Origin, Level, info_level, enrich}

-- What a handler calls of its writer: `WriteHeader`, `Write`, and `Flush` of a controller.
pub data Call : Type 0 where
  write_header : ℕ → Call
  write : String → Call
  flush : Call

-- A handler, by what it calls next: it is told how many bytes were taken and whether that failed, and
-- whether a flush succeeded.
pub data Handler : Type 0 where
  finished : Handler
  sets_status : ℕ → Handler → Handler
  writes : String → (ℕ × Bool → Handler) → Handler
  flushes : (Bool → Handler) → Handler

-- The wrapper: `size` is an int of 64 bits, which wraps; `passed` has the calls of the writer inside.
pub record Writer : Type 0 where
  pub status_code : ℕ
  pub size : ℕ
  pub passed : List Call

abbrev pub int_range : ℕ
int_range = 18446744073709551616

abbrev pub fresh : Writer
fresh = record { status_code = 0; size = 0; passed = [] }

-- The entry of a request.
pub record Logged (Query : Type 0) : Type 0 where
  pub level : Level
  pub origin : Origin Query
  pub status : ℕ
  pub response_size : ℕ

-- `WriteHeader` of the wrapper
unfoldable pub on_write_header : ℕ → Writer → Writer
on_write_header c w = record {
  status_code = c;
  size = w.size;
  passed = w.passed ++ (write_header c ∷ []);
}

-- `Write` of the wrapper, of which the writer inside takes `n` bytes
unfoldable pub on_write : String → ℕ → Writer → Writer
on_write b n w = record {
  status_code = if nat_eq w.status_code 0 then 200 else w.status_code;
  size = (w.size + n) % int_range;
  passed = w.passed ++ (write b ∷ []);
}

-- How many bytes the writer inside takes, after the calls so far, and whether that fails.
module _ (taken : List Call → String → ℕ × Bool) where
  -- The wrapper has the methods of `http.ResponseWriter` only, and no `Unwrap`: a flush is not passed
  -- on, and fails.
  unfoldable pub serve_http : Handler → Writer → Writer
  unfolding on_write_header on_write
  serve_http finished w = w
  serve_http (sets_status c next) w = serve_http next (on_write_header c w)
  serve_http (writes b next) w =
      let result = taken w.passed b in serve_http (next result) (on_write b result.0 w)
  serve_http (flushes next) w = serve_http (next false) w

  -- `LogMiddleware`: the entry, and what the writer inside was asked.
  unfoldable pub log_middleware :
      {Query : Type 0} → Request Query → Handler → Logged Query × List Call
  log_middleware req next =
      let lrw = serve_http next fresh in
      (
        record {
          level = info_level;
          origin = enrich req;
          status = lrw.status_code;
          response_size = lrw.size;
        },
        lrw.passed,
      )
