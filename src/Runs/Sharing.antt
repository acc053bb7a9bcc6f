-- ===== src/Runs/Sharing.antt =====
-- What the sharing of a run does (controller/run.go, modules/run.go).
use runner_controller_micros.Base.{
  ℕ, ◌≡◌, refl, sym, ◌∙◌, ap, ◌≢◌, String, Bool, true, false, some, List, [], ◌∷◌, length, nat_eq,
  ◌||◌, not, if◌then◌else◌, arith,
}
use runner_controller_micros.Service.World.{
  History, Reply, given, Verdict, Data, Fields, Env, Request, Response, State,
}
use runner_controller_micros.Service.Exec.{value, halt}
use runner_controller_micros.Service.Exec.Runs.{
  after_answer, obtain-value, value-injective, stop-ne-value,
}
use runner_controller_micros.Service.Effects.{world}
use runner_controller_micros.Service.Stages.{
  attempt-value, auth-value, body-value, lift-value, pool_conn-world,
}
use runner_controller_micros.Runs.Queries.{ShareRunReq, scanned, grant, share_with, share_run}
use runner_controller_micros.Runs.Handlers.{handled, share}
use runner_controller_micros.Runs.Granted.{
  granted, Grants, bind-Grants, Silent-Grants, grant-Grants,
}
use runner_controller_micros.Service.Exec.Silent.{
  halt-Silent, on_error-Silent, lift-Silent, obtain-Silent,
}
use runner_controller_micros.Service.Calls.Silent.{pool_conn-Silent}
use runner_controller_micros.Runs.Answered.{handled-value, share-Stops}
use runner_controller_micros.Runs.Reading.{IsAuthenticated}

nat_eq-false : (a b : ℕ) → nat_eq a b ≡ false → a ≢ b
nat_eq-false a b h e = ground arith

nat_eq-true : (a b : ℕ) → nat_eq a b ≡ true → a ≡ b
nat_eq-true a b h = ground arith

module _ (env : Env) where
  grant-value :
      (id : String) (users : List String) (s : State) (a : Unit) (t : State)
      → grant env id users s ≡ (value a, t)
      → world t.trace ≡ granted id users (world s.trace)
  unfolding grant granted
  grant-value id [] s a t h = ap (λ u. world u.trace) (sym (value-injective h).1)
  grant-value id (user ∷ users) s a t h = after_answer _ _ _ s h λ _ s1 e1 k1.
      grant-value id users s1 a t k1
      ∙ ap (λ u. granted id users (world u.trace)) (attempt-value env _ e1)

  -- The users are shared with if there are any, and as many as addresses.
  share_with-value :
      (id : String) (emails users : List String) (s : State) (a : Unit) (t : State)
      → share_with env id emails users s ≡ (value a, t)
      → (length users ≢ 0)
        × (length users ≡ length emails)
        × (world t.trace ≡ granted id users (world s.trace))
  unfolding share_with
  share_with-value id emails users s a t h =
      go (nat_eq (length users) 0) (nat_eq (length users) (length emails)) refl refl h
    where
      go :
          (none_found all_found : Bool)
          → nat_eq (length users) 0 ≡ none_found
          → nat_eq (length users) (length emails) ≡ all_found
          → (if none_found || not all_found
                then halt "please check the emails again. some of them do not exist"
                else grant env id users)
              s
            ≡ (value a, t)
          → (length users ≢ 0)
            × (length users ≡ length emails)
            × (world t.trace ≡ granted id users (world s.trace))
      go true all_found p q k = absurd (stop-ne-value k)
      go false false p q k = absurd (stop-ne-value k)
      go false true p q k = (nat_eq-false _ 0 p, nat_eq-true _ _ q, grant-value id users s a t k)

  -- A sharing that is answered with 200 has given exactly the users with the addresses of the request
  -- an access for reading to the run, which exists, and done nothing else. There is at least one
  -- user, and there are as many as addresses. The caller is authenticated.
  pub share-granted :
      (from_json : Data env.Value → Reply ShareRunReq) (req : Request env.Value) (s : State)
      (r : Response (Fields String)) (t : State)
      → handled (share env from_json req) s ≡ (some r, t)
      → r.code ≡ 200
      → (user : Verdict) × (content : Data env.Value) × (request : ShareRunReq) × (before : History)
        × (id : String) × (later : History) × (rows : List (Reply String)) × (users : List String)
        × (IsAuthenticated env req user
            × (req.body ≡ some content)
            × (from_json content ≡ given request)
            × (env.run_id before request.run_id ≡ given id)
            × (env.user_ids later request.user_email_list ≡ given rows)
            × (scanned rows ≡ given users)
            × (length users ≢ 0)
            × (length users ≡ length request.user_email_list)
            × (world t.trace ≡ granted request.run_id users (world s.trace)))
  unfolding share share_run
  share-granted from_json req s r t h ok =
      after_answer _ _ _ s (handled-value _ s r t (share-Stops env from_json req) h ok)
        λ user s1 e1 k1. after_answer _ _ _ s1 k1 λ content s2 e2 k2.
          after_answer _ _ _ s2 k2 λ request s3 e3 k3. after_answer _ _ _ s3 k3 λ _ s4 e4 k4.
            after_answer _ _ _ s3 e4 λ _ s5 e5 k5. after_answer _ _ _ s5 k5 λ id s6 e6 k6.
              after_answer _ _ _ s6 k6 λ rows s7 e7 k7. after_answer _ _ _ s7 k7 λ users s8 e8 k8.
                let (token, cookie, asked, verdict, valid, w1) =
                  auth-value env req.token s user s1 e1 in
                let (_, decoded, w2) = body-value env req s1 content s2 e2 in
                let (parsed, w3) = lift-value (from_json content) s2 request s3 e3 in
                let w4 = pool_conn-world env s3 _ s5 e5 in
                let (exists, w5) = obtain-value _ (λ h. env.run_id h request.run_id) e6 in
                let (found, w6) = obtain-value _ (λ h. env.user_ids h request.user_email_list) e7 in
                let (ids, w7) = lift-value (scanned rows) s7 users s8 e8 in
                let (some_users, all_users, w8) =
                  share_with-value request.run_id request.user_email_list users s8 _ s4 k8 in
                let (_, w9) = value-injective k4 in
                let still : world s8.trace ≡ world s.trace =
                  rw (w7, w6, w5) (w4 ∙ rw (w3, w2) w1) in
                (
                  user,
                  content,
                  request,
                  s5.trace,
                  id,
                  s6.trace,
                  rows,
                  users,
                  (
                    (token, asked, cookie, verdict, valid),
                    decoded,
                    parsed,
                    exists,
                    found,
                    ids,
                    some_users,
                    all_users,
                    rw (sym w9) (w8 ∙ ap (granted request.run_id users) still),
                  ),
                )

  share_with-Grants :
      (id : String) (emails users : List String) → Grants id (share_with env id emails users)
  unfolding share_with
  share_with-Grants id emails users =
      go (nat_eq (length users) 0 || not (nat_eq (length users) (length emails)))
    where
      go :
          (b : Bool)
          → Grants id (
              if b
              then halt "please check the emails again. some of them do not exist"
              else grant env id users)
      go true = Silent-Grants id _ (halt-Silent _)
      go false = grant-Grants env id users

  -- However a sharing ends, all that it has done is to give some users an access for reading, and
  -- to the run of the request.
  pub share_run-Grants : (request : ShareRunReq) → Grants request.run_id (share_run env request)
  unfolding share_run
  share_run-Grants request =
      let id = request.run_id in
      bind-Grants id _ _ (Silent-Grants id _ (on_error-Silent _ _ (pool_conn-Silent env))) λ _.
        bind-Grants id _ _
          (Silent-Grants id _ (on_error-Silent _ _ (obtain-Silent _ _ (λ w. refl))))
          λ _.
            bind-Grants id _ _
              (Silent-Grants id _ (on_error-Silent _ _ (obtain-Silent _ _ (λ w. refl))))
              λ rows.
                bind-Grants id _ _ (Silent-Grants id _ (on_error-Silent _ _ (lift-Silent _)))
                  λ users. share_with-Grants id request.user_email_list users
