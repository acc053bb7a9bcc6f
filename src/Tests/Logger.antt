-- ===== src/Tests/Logger.antt =====
-- A request that came through two proxies, one that came directly, and a handler that answers 404.
use runner_controller_micros.Base.{
  ℕ, String, ◌==◌, ◌≡◌, refl, ◌%◌, Bool, true, false, inl, List, [], ◌∷◌, if◌then◌else◌,
}
use runner_controller_micros.Base.Text.{has_char, byte_length}
use runner_controller_micros.Logger.Client.{
  Request, client_ip, trim_space, trim_left, trim_right, keep, is_space,
}
use runner_controller_micros.Logger.Middleware.{
  Call, write, flush, Handler, finished, sets_status, writes, flushes, int_range, serve_http,
  on_write, log_middleware,
}
use runner_controller_micros.Logger.Address.{client_ip-forwarded}
use runner_controller_micros.Logger.Statuses.{is_final, sent, SetsOnce, IsLastStatus}
use runner_controller_micros.Logger.Recorded.{
  bytes, calls, log_middleware-recorded, log_middleware-sent,
}

abbrev forwarded : Request String
forwarded = record {
  path = "/api/runs";
  method = "GET";
  query = "";
  get = λ h. if h == "X-Forwarded-For" then "10.0.0.7 ,10.0.0.1" else "";
  remote_addr = "127.0.0.1:5002";
}

abbrev direct : Request String
direct = record {
  path = "/api/test";
  method = "GET";
  query = "";
  get = λ h. "";
  remote_addr = "[::1]:40112";
}

-- It writes its body in two parts, and flushes the first, which it does not look at.
abbrev not_found : Handler
not_found = sets_status 404 (writes "not " (λ _. flushes (λ _. writes "found" (λ _. finished))))

-- A handler that stops if it cannot flush, as that of modules/sse does.
abbrev streaming : Handler
streaming =
    writes "retry: 3s"
      (λ _. flushes (λ flushed. if flushed then writes "data: gen 1" (λ _. finished) else finished))

-- A writer that takes every byte.
abbrev takes_all : List Call → String → ℕ × Bool
takes_all before b = (byte_length b, false)

client_ip-forwarded_example : client_ip forwarded ≡ "10.0.0.7"
unfolding has_char trim_space trim_left trim_right keep is_space
client_ip-forwarded_example = client_ip-forwarded forwarded "10.0.0.7 " "10.0.0.1" refl refl

not_found-SetsOnce : SetsOnce (calls takes_all false [] not_found)
unfolding calls is_final
not_found-SetsOnce = ("not " ∷ "found" ∷ [], inl (404, refl, refl))

log_middleware-recorded_example :
    ((log_middleware takes_all direct streaming).1 ≡ calls takes_all false [] streaming)
    × IsLastStatus
        (log_middleware takes_all direct streaming).0.status
        (calls takes_all false [] streaming)
    × ((log_middleware takes_all direct streaming).0.response_size
        ≡ bytes takes_all [] (calls takes_all false [] streaming) % int_range)
log_middleware-recorded_example = log_middleware-recorded takes_all direct streaming

log_middleware-sent_example :
    (log_middleware takes_all direct not_found).0.status
    ≡ sent (log_middleware takes_all direct not_found).1
log_middleware-sent_example = log_middleware-sent takes_all direct not_found not_found-SetsOnce

-- Behind the wrapper the stream stops after its first line.
stream_stops :
    ((log_middleware takes_all direct streaming).1 ≡ write "retry: 3s" ∷ [])
    × (calls takes_all true [] streaming ≡ write "retry: 3s" ∷ flush ∷ write "data: gen 1" ∷ [])
unfolding log_middleware serve_http on_write calls
stream_stops = (refl, refl)
