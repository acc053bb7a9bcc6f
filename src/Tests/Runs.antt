-- ===== src/Tests/Runs.antt =====
-- Requests for controller/run.go.
use runner_controller_micros.Base.{◌≡◌, refl, ◌≢◌, ◌⊎◌, String, none, some, List, [], ◌∷◌, length}
use runner_controller_micros.Service.World.{
  succeeded, select_access, select_run, Reply, given, Verdict, RunRow, Data, Fields, Response,
  History, State,
}
use runner_controller_micros.Service.Exec.{◌>>=◌, on_error, obtained, lift}
use runner_controller_micros.Service.Calls.{auth, body, pool_conn}
use runner_controller_micros.Service.Effects.{world}
use runner_controller_micros.Runs.Queries.{
  ShareRunReq, RunDataReq, scanned, listed, details, load_runs, user_runs, user_run, grant,
  share_with, share_run,
}
use runner_controller_micros.Runs.Handlers.{handled, get_run, get_runs, share}
use runner_controller_micros.Runs.Granted.{granted}
use runner_controller_micros.Runs.Reading.{IsAuthenticated, get_run-access, get_runs-listed}
use runner_controller_micros.Runs.Entries.{AreEntries}
use runner_controller_micros.Runs.Sharing.{share-granted}
use runner_controller_micros.Runs.Remains.{Remains, share_run-Remains}
use runner_controller_micros.Tests.Service.{services, posted, idle, stored_run}

abbrev run_1 : RunDataReq
run_1 = record { run_id = "r1" }

abbrev read_run_1 : Data String → Reply RunDataReq
read_run_1 d = given run_1

abbrev one_run : Response (Fields String)
one_run = record { code = 200; message = "User run"; content = some (details stored_run) }

after_get_run : State
after_get_run = (handled (get_run services read_run_1 posted) idle).1

get_run-ok : handled (get_run services read_run_1 posted) idle ≡ (some one_run, after_get_run)
unfolding after_get_run get_run ◌>>=◌ on_error obtained lift auth body pool_conn user_run
get_run-ok = refl

get_run-access_example :
    (user : Verdict) × (content : Data String) × (run : RunDataReq) × (before : History)
    × (later : History) × (id : String) × (row : RunRow) × (IsAuthenticated services posted user
        × (posted.body ≡ some content)
        × (read_run_1 content ≡ given run)
        × (services.access_run before user.id run.run_id ≡ given id)
        × (services.run_row later run.run_id ≡ given row)
        × (later ≡ succeeded (select_access user.id run.run_id) ∷ before)
        × (after_get_run.trace ≡ succeeded (select_run run.run_id) ∷ later)
        × (one_run.content
            ≡ some (
                ("id", row.id)
                ∷ ("name", row.name)
                ∷ ("description", row.description)
                ∷ ("status", row.status)
                ∷ ("type", row.run_type)
                ∷ ("command", row.command)
                ∷ ("createdBy", row.created_by)
                ∷ ("createdAt", row.created_at)
                ∷ ("updatedAt", row.updated_at)
                ∷ []))
        × (world after_get_run.trace ≡ world idle.trace))
get_run-access_example =
    get_run-access services read_run_1 posted idle one_run after_get_run get_run-ok refl

abbrev all_runs : Response (List (Fields String))
all_runs = record {
  code = 200;
  message = "User runs";
  content = some (listed "u1" stored_run ∷ []);
}

after_get_runs : State
after_get_runs = (handled (get_runs services posted) idle).1

get_runs-ok : handled (get_runs services posted) idle ≡ (some all_runs, after_get_runs)
unfolding after_get_runs get_runs ◌>>=◌ on_error obtained lift auth pool_conn user_runs load_runs
    scanned
get_runs-ok = refl

get_runs-listed_example :
    (user : Verdict) × (ids : List String) × (runs : List (Fields String)) × (IsAuthenticated
        services posted user
      × ((h : History) × (rows : List (Reply String)) × (services.access_runs h user.id
            ≡ given rows)
          × (scanned rows ≡ given ids))
      × (((ids ≡ []) × (runs ≡ []))
          ⊎ ((h : History) × (rows : List (Reply RunRow)) × (entries : List RunRow)
              × (services.run_rows h ids ≡ given rows)
              × (scanned rows ≡ given entries)
              × AreEntries user.id entries runs))
      × (all_runs.content ≡ some runs)
      × (world after_get_runs.trace ≡ world idle.trace))
get_runs-listed_example =
    get_runs-listed services posted idle all_runs after_get_runs get_runs-ok refl

abbrev sharing : ShareRunReq
sharing = record { run_id = "r1"; user_email_list = "bob@example.com" ∷ [] }

abbrev read_sharing : Data String → Reply ShareRunReq
read_sharing d = given sharing

abbrev shared : Response (Fields String)
shared = record { code = 200; message = "Run shared."; content = none }

after_share : State
after_share = (handled (share services read_sharing posted) idle).1

share-ok : handled (share services read_sharing posted) idle ≡ (some shared, after_share)
unfolding after_share share ◌>>=◌ on_error obtained lift auth body pool_conn share_run scanned
    share_with grant
share-ok = refl

share-granted_example :
    (user : Verdict) × (content : Data String) × (request : ShareRunReq) × (before : History)
    × (id : String) × (later : History) × (rows : List (Reply String)) × (users : List String)
    × (IsAuthenticated services posted user
        × (posted.body ≡ some content)
        × (read_sharing content ≡ given request)
        × (services.run_id before request.run_id ≡ given id)
        × (services.user_ids later request.user_email_list ≡ given rows)
        × (scanned rows ≡ given users)
        × (length users ≢ 0)
        × (length users ≡ length request.user_email_list)
        × (world after_share.trace ≡ granted request.run_id users (world idle.trace)))
share-granted_example =
    share-granted services read_sharing posted idle shared after_share share-ok refl

share_run-Remains_example : Remains services sharing idle (share_run services sharing idle)
share_run-Remains_example = share_run-Remains services sharing idle
