-- ===== src/Runs/Queries.antt =====
-- The functions of modules/run.go: the runs of a user, one run, and the sharing of a run.
use runner_controller_micros.Base.{
  String, ◌==◌, List, [], ◌∷◌, map, length, nat_eq, ◌||◌, not, if◌then◌else◌,
}
use runner_controller_micros.Service.World.{
  select_access_runs, select_runs, select_run, select_users, select_access, insert_access, Reply,
  given, refused, RunRow, Env, Fields,
}
use runner_controller_micros.Service.Exec.{Exec, pure, halt, ◌>>=◌, ◌>>◌, lift, obtain}
use runner_controller_micros.Service.Calls.{attempt, masked, pool_conn}

pub record ShareRunReq : Type 0 where
  pub run_id : String
  pub user_email_list : List String

pub record RunDataReq : Type 0 where
  pub run_id : String

-- The loop over the rows of a query, which stops at the first row that cannot be scanned.
unfoldable pub scanned : {A : Type 0} → List (Reply A) → Reply (List A)
scanned [] = given []
scanned (refused m ∷ rest) = refused m
scanned (given a ∷ rest) = elim (scanned rest) [
  | given rest_scanned ↦ given (a ∷ rest_scanned)
  | refused m ↦ refused m
]

abbrev went_wrong : {A : Type 0} → Exec String A → Exec String A
went_wrong m = masked "something went wrong" m

-- Who made the run, for the user that asks.
unfoldable pub origin : String → RunRow → Fields String
origin user row =
    if not (row.created_by == user)
    then ("isShared", "true") ∷ ("sharedBy", row.created_by) ∷ []
    else ("isShared", "false") ∷ ("createdBy", row.created_by) ∷ []

-- An entry of the list of runs.
unfoldable pub listed : String → RunRow → Fields String
listed user row =
    ("id", row.id)
    ∷ ("name", row.name)
    ∷ ("description", row.description)
    ∷ ("status", row.status)
    ∷ ("type", row.run_type)
    ∷ ("command", row.command)
    ∷ ("createdAt", row.created_at)
    ∷ ("updatedAt", row.updated_at)
    ∷ origin user row

-- One run by itself.
unfoldable pub details : RunRow → Fields String
details row =
    ("id", row.id)
    ∷ ("name", row.name)
    ∷ ("description", row.description)
    ∷ ("status", row.status)
    ∷ ("type", row.run_type)
    ∷ ("command", row.command)
    ∷ ("createdBy", row.created_by)
    ∷ ("createdAt", row.created_at)
    ∷ ("updatedAt", row.updated_at)
    ∷ []

module _ (env : Env) where
  -- The runs of a list of ids that is not empty.
  unfoldable pub load_runs : String → List String → Exec String (List (Fields String))
  load_runs user [] = pure []
  load_runs user (id ∷ ids) = do
    rows ← went_wrong (obtain (select_runs (id ∷ ids)) (λ h. env.run_rows h (id ∷ ids)))
    entries ← went_wrong (lift (scanned rows))
    pure (map (listed user) entries)

  -- `UserRuns`
  unfoldable pub user_runs : String → Exec String (List (Fields String))
  user_runs user = do
    went_wrong (pool_conn env)
    rows ← went_wrong (obtain (select_access_runs user) (λ h. env.access_runs h user))
    ids ← went_wrong (lift (scanned rows))
    load_runs user ids

  -- The loop that inserts the accesses; those before an error stay.
  unfoldable pub grant : String → List String → Exec String Unit
  grant id [] = pure tt
  grant id (user ∷ users) = do
    masked "make sure the run is not already shared with the user"
        (attempt env (insert_access id user "read"))
    grant id users

  unfoldable pub share_with : String → List String → List String → Exec String Unit
  share_with id emails users =
      if nat_eq (length users) 0 || not (nat_eq (length users) (length emails))
      then halt "please check the emails again. some of them do not exist"
      else grant id users

  -- `ShareRun`
  unfoldable pub share_run : ShareRunReq → Exec String Unit
  share_run s = do
    went_wrong (pool_conn env)
    masked "run does not exist" (obtain (select_run s.run_id) (λ h. env.run_id h s.run_id))
    rows ←
        went_wrong (obtain (select_users s.user_email_list) (λ h. env.user_ids h s.user_email_list))
    users ← went_wrong (lift (scanned rows))
    share_with s.run_id s.user_email_list users

  -- `UserRun`: a user without an access to the run is told that it does not exist.
  unfoldable pub user_run : String → RunDataReq → Exec String (Fields String)
  user_run user r = do
    went_wrong (pool_conn env)
    masked "run does not exist"
        (obtain (select_access user r.run_id) (λ h. env.access_run h user r.run_id))
    row ← went_wrong (obtain (select_run r.run_id) (λ h. env.run_row h r.run_id))
    pure (details row)
