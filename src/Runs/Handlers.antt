-- ===== src/Runs/Handlers.antt =====
-- The handlers of controller/run.go and controller/test.go.
use runner_controller_micros.Base.{String, ◌==◌, Option, none, some, List, if◌then◌else◌}
use runner_controller_micros.Service.World.{Reply, Data, Fields, Env, Request, Response, State}
use runner_controller_micros.Service.Exec.{Exec, pure, ◌>>=◌, ◌>>◌, lift}
use runner_controller_micros.Service.Replies.{or_reply, reply_error, answered_with}
use runner_controller_micros.Service.Calls.{auth, body}
use runner_controller_micros.Runs.Queries.{ShareRunReq, RunDataReq, user_runs, user_run, share_run}

abbrev pub Handler : Type 0 → Type 0
Handler C = Exec (Response C) (Response C)

abbrev pub reply_ok : {C : Type 0} → String → Option C → Response C
reply_ok m content = record { code = 200; message = m; content = content }

-- The answer of a handler, and the state that it leaves.
abbrev pub handled : {C : Type 0} → Handler C → State → Option (Response C) × State
handled m s = let (r, t) = m s in (answered_with r, t)

module _ (env : Env) where
  -- `UserRun`
  unfoldable pub get_run :
      (Data env.Value → Reply RunDataReq) → Request env.Value → Handler (Fields String)
  get_run from_json req = do
    user ← or_reply 401 (auth env req.token)
    content ← or_reply 400 (body env req)
    run ← or_reply 400 (lift (from_json content))
    fields ← or_reply 500 (user_run env user.id run)
    pure (reply_ok "User run" (some fields))

  -- `UserRuns`
  unfoldable pub get_runs : Request env.Value → Handler (List (Fields String))
  get_runs req = do
    user ← or_reply 401 (auth env req.token)
    runs ← or_reply 500 (user_runs env user.id)
    pure (reply_ok "User runs" (some runs))

  -- `ShareRun`: the response has no data.
  unfoldable pub share :
      (Data env.Value → Reply ShareRunReq) → Request env.Value → Handler (Fields String)
  share from_json req = do
    user ← or_reply 401 (auth env req.token)
    content ← or_reply 400 (body env req)
    request ← or_reply 400 (lift (from_json content))
    or_reply 400 (share_run env request)
    pure (reply_ok "Run shared." none)

  unfoldable pub echo : Request env.Value → Handler (Data env.Value)
  echo req = do content ← or_reply 400 (body env req); pure (reply_ok "It works! 👍🏻" (some content))

  -- `Test`
  unfoldable pub test : Request env.Value → Handler (Data env.Value)
  test req =
      if req.method == "GET"
      then pure (reply_ok "It works! 👍🏻" none)
      else if req.method == "POST"
      then echo req
      else pure (reply_error 405 "Method not allowed")
