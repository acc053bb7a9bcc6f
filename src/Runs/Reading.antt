-- ===== src/Runs/Reading.antt =====
-- Who may read a run, and what is read (controller/run.go, modules/run.go).
use runner_controller_micros.Base.{
  ◌≡◌, refl, sym, ◌∙◌, ap, ◌⊎◌, inl, inr, String, subst, some, List, [], ◌∷◌, true,
}
use runner_controller_micros.Service.World.{
  succeeded, select_access, select_run, History, Reply, given, Verdict, RunRow, Data, Fields, Env,
  Request, Response, State,
}
use runner_controller_micros.Service.Exec.{value}
use runner_controller_micros.Service.Exec.Runs.{after_answer, obtain-value, value-injective}
use runner_controller_micros.Service.Effects.{world}
use runner_controller_micros.Service.Stages.{auth-value, body-value, lift-value, pool_conn-world}
use runner_controller_micros.Runs.Queries.{
  RunDataReq, scanned, details, load_runs, user_runs, user_run,
}
use runner_controller_micros.Runs.Handlers.{handled, get_run, get_runs}
use runner_controller_micros.Runs.Answered.{handled-value, get_run-Stops, get_runs-Stops}
use runner_controller_micros.Runs.Entries.{AreEntries, listed-AreEntries}

-- A user whom the auth service finds valid for the cookie.
abbrev pub IsAuthenticated : (env : Env) → Request env.Value → Verdict → Type 0
IsAuthenticated env req user =
    (token : String) × (asked : History) × (req.token ≡ some token)
    × (env.verdict asked token ≡ given user)
    × (user.valid ≡ true)

module _ (env : Env) where
  -- The access is looked up, and right after it the run.
  user_run-value :
      (user : String) (run : RunDataReq) (s : State) (fields : Fields String) (t : State)
      → user_run env user run s ≡ (value fields, t)
      → (before : History) × (later : History) × (id : String) × (row : RunRow) × (env.access_run
            before user run.run_id
          ≡ given id)
        × (env.run_row later run.run_id ≡ given row)
        × (later ≡ succeeded (select_access user run.run_id) ∷ before)
        × (t.trace ≡ succeeded (select_run run.run_id) ∷ later)
        × (fields ≡ details row)
        × (world t.trace ≡ world s.trace)
  unfolding user_run
  user_run-value user run s fields t h = after_answer _ _ _ s h λ _ s1 e1 k1.
      after_answer _ _ _ s1 k1 λ id s2 e2 k2. after_answer _ _ _ s2 k2 λ row s3 e3 k3.
        let w1 = pool_conn-world env s _ s1 e1 in
        let (found, w2) = obtain-value _ (λ h. env.access_run h user run.run_id) e2 in
        let (read, w3) = obtain-value _ (λ h. env.run_row h run.run_id) e3 in
        let (p, w4) = value-injective k3 in
        (
          s1.trace,
          s2.trace,
          id,
          row,
          found,
          read,
          ap (λ u. u.trace) w2,
          ap (λ u. u.trace) (sym w4) ∙ ap (λ u. u.trace) w3,
          sym p,
          rw (sym w4, w3, w2) w1,
        )

  -- A run is given only to a user that is authenticated and has an access to it: the query for the
  -- access has found one, and only right after it, as the last call of all, the run is read. The
  -- answer has the nine columns of the row that was read, by their names, and nothing is changed.
  pub get_run-access :
      (from_json : Data env.Value → Reply RunDataReq) (req : Request env.Value) (s : State)
      (r : Response (Fields String)) (t : State)
      → handled (get_run env from_json req) s ≡ (some r, t)
      → r.code ≡ 200
      → (user : Verdict) × (content : Data env.Value) × (run : RunDataReq) × (before : History)
        × (later : History) × (id : String) × (row : RunRow) × (IsAuthenticated env req user
            × (req.body ≡ some content)
            × (from_json content ≡ given run)
            × (env.access_run before user.id run.run_id ≡ given id)
            × (env.run_row later run.run_id ≡ given row)
            × (later ≡ succeeded (select_access user.id run.run_id) ∷ before)
            × (t.trace ≡ succeeded (select_run run.run_id) ∷ later)
            × (r.content
                ≡ some (
                    ("id", row.id)
                    ∷ ("name", row.name)
                    ∷ ("description", row.description)
                    ∷ ("status", row.status)
                    ∷ ("type", row.run_type)
                    ∷ ("command", row.command)
                    ∷ ("createdBy", row.created_by)
                    ∷ ("createdAt", row.created_at)
                    ∷ ("updatedAt", row.updated_at)
                    ∷ []))
            × (world t.trace ≡ world s.trace))
  unfolding get_run details
  get_run-access from_json req s r t h ok =
      after_answer _ _ _ s (handled-value _ s r t (get_run-Stops env from_json req) h ok)
        λ user s1 e1 k1. after_answer _ _ _ s1 k1 λ content s2 e2 k2.
          after_answer _ _ _ s2 k2 λ run s3 e3 k3. after_answer _ _ _ s3 k3 λ fields s4 e4 k4.
            let (token, cookie, asked, verdict, valid, w1) =
              auth-value env req.token s user s1 e1 in
            let (_, decoded, w2) = body-value env req s1 content s2 e2 in
            let (parsed, w3) = lift-value (from_json content) s2 run s3 e3 in
            let (before, later, id, row, found, read, next, last, same, w4) =
              user_run-value user.id run s3 fields s4 e4 in
            let (p, w5) = value-injective k4 in
            (
              user,
              content,
              run,
              before,
              later,
              id,
              row,
              (
                (token, asked, cookie, verdict, valid),
                decoded,
                parsed,
                found,
                read,
                next,
                ap (λ u. u.trace) (sym w5) ∙ last,
                ap (λ x. x.content) (sym p) ∙ ap some same,
                rw (sym w5) (w4 ∙ rw (w3, w2) w1),
              ),
            )

  load_runs-value :
      (user : String) (ids : List String) (s : State) (runs : List (Fields String)) (t : State)
      → load_runs env user ids s ≡ (value runs, t)
      → (((ids ≡ []) × (runs ≡ []))
          ⊎ ((h : History) × (rows : List (Reply RunRow)) × (entries : List RunRow) × (env.run_rows
                  h ids
                ≡ given rows)
              × (scanned rows ≡ given entries)
              × AreEntries user entries runs))
        × (world t.trace ≡ world s.trace)
  unfolding load_runs
  load_runs-value user [] s runs t h =
      let (p, q) = value-injective h in (inl (refl, sym p), ap (λ u. world u.trace) (sym q))
  load_runs-value user (i ∷ ids) s runs t h = after_answer _ _ _ s h λ rows s1 e1 k1.
      after_answer _ _ _ s1 k1 λ entries s2 e2 k2.
        let (given_rows, w1) = obtain-value _ (λ h. env.run_rows h (i ∷ ids)) e1 in
        let (given_entries, w2) = lift-value (scanned rows) s1 entries s2 e2 in
        let (p, w3) = value-injective k2 in
        (
          inr (
            s.trace,
            rows,
            entries,
            given_rows,
            given_entries,
            subst (AreEntries user entries) p (listed-AreEntries user entries),
          ),
          rw (sym w3, w2, w1) refl,
        )

  -- The list of runs is for an authenticated user, and holds what the database has for the ids of
  -- the accesses of this user: nothing if there are none, and else one entry for every row, in their
  -- order, with the columns of the row and its maker: as createdBy and not shared if the user has made
  -- the run, as sharedBy and shared if not. Nothing changes.
  pub get_runs-listed :
      (req : Request env.Value) (s : State) (r : Response (List (Fields String))) (t : State)
      → handled (get_runs env req) s ≡ (some r, t)
      → r.code ≡ 200
      → (user : Verdict) × (ids : List String) × (runs : List (Fields String)) × (IsAuthenticated
            env req user
          × ((h : History) × (rows : List (Reply String)) × (env.access_runs h user.id ≡ given rows)
              × (scanned rows ≡ given ids))
          × (((ids ≡ []) × (runs ≡ []))
              ⊎ ((h : History) × (rows : List (Reply RunRow)) × (entries : List RunRow)
                  × (env.run_rows h ids ≡ given rows)
                  × (scanned rows ≡ given entries)
                  × AreEntries user.id entries runs))
          × (r.content ≡ some runs)
          × (world t.trace ≡ world s.trace))
  unfolding get_runs user_runs
  get_runs-listed req s r t h ok =
      after_answer _ _ _ s (handled-value _ s r t (get_runs-Stops env req) h ok) λ user s1 e1 k1.
        after_answer _ _ _ s1 k1 λ runs s2 e2 k2. after_answer _ _ _ s1 e2 λ _ s3 e3 k3.
          after_answer _ _ _ s3 k3 λ rows s4 e4 k4. after_answer _ _ _ s4 k4 λ ids s5 e5 k5.
            let (token, cookie, asked, verdict, valid, w1) =
              auth-value env req.token s user s1 e1 in
            let w2 = pool_conn-world env s1 _ s3 e3 in
            let (given_rows, w3) = obtain-value _ (λ h. env.access_runs h user.id) e4 in
            let (given_ids, w4) = lift-value (scanned rows) s4 ids s5 e5 in
            let (loaded, w5) = load_runs-value user.id ids s5 runs s2 k5 in
            let (p, w6) = value-injective k2 in
            (
              user,
              ids,
              runs,
              (
                (token, asked, cookie, verdict, valid),
                (s3.trace, rows, given_rows, given_ids),
                loaded,
                ap (λ x. x.content) (sym p),
                rw (sym w6) (w5 ∙ rw (w4, w3) (w2 ∙ w1)),
              ),
            )
