-- ===== src/Runs/Remains.antt =====
-- What remains of a sharing that stops (modules/run.go).
use runner_controller_micros.Base.{
  ◌≡◌, refl, sym, ◌∙◌, ap, ◌≢◌, ◌⊎◌, inl, inr, String, ◌==◌, Bool, true, false, List, ◌++◌, length,
  nat_eq, subst, ◌||◌, not, if◌then◌else◌, eq_iff,
}
use mathlib.Core.Bool.{false≢true}
use runner_controller_micros.Service.World.{
  select_run, select_users, History, Reply, given, Env, State,
}
use runner_controller_micros.Service.Exec.{Step, stop, Exec, halt, lift, obtain}
use runner_controller_micros.Service.Exec.Runs.{obtain-value}
use runner_controller_micros.Service.Exec.Panics.{NoPanic, obtain-NoPanic, lift-NoPanic}
use runner_controller_micros.Service.Exec.Silent.{Silent, lift-Silent, obtain-Silent}
use runner_controller_micros.Service.Calls.{pool_conn}
use runner_controller_micros.Service.Calls.Panics.{pool_conn-NoPanic}
use runner_controller_micros.Service.Calls.Silent.{pool_conn-Silent}
use runner_controller_micros.Service.Effects.{world}
use runner_controller_micros.Service.Stages.{lift-value}
use runner_controller_micros.Runs.Queries.{ShareRunReq, scanned, grant, share_with, share_run}
use runner_controller_micros.Runs.Given.{already_shared, after_part, Given, grant-Given}

module _ (env : Env) (request : ShareRunReq) (s : State) where
  -- The ways a sharing ends: with nothing done, and an error that is not about an access; or with
  -- accesses for the first of the users that the database has for the addresses.
  abbrev pub Remains : Step String Unit × State → Type 0
  Remains (r, t) =
      ((text : String) × (r ≡ stop text)
        × (text ≢ already_shared)
        × (world t.trace ≡ world s.trace))
      ⊎ ((h : History) × (rows : List (Reply String)) × (users : List String) × (others : List
            String)
          × (env.user_ids h request.user_email_list ≡ given rows)
          × (scanned rows ≡ given (users ++ others))
          × Given env request.run_id users others (world s.trace) (r, t))

  -- The two queries of a sharing.
  abbrev find_run : Exec String String
  find_run = obtain (select_run request.run_id) (λ h. env.run_id h request.run_id)

  abbrev find_users : Exec String (List (Reply String))
  find_users =
      obtain (select_users request.user_email_list) (λ h. env.user_ids h request.user_email_list)

  find_run-NoPanic : NoPanic find_run
  find_run-NoPanic = obtain-NoPanic (select_run request.run_id) (λ h. env.run_id h request.run_id)

  find_users-NoPanic : NoPanic find_users
  find_users-NoPanic =
      obtain-NoPanic (select_users request.user_email_list)
        (λ h. env.user_ids h request.user_email_list)

  find_run-Silent : Silent find_run
  find_run-Silent =
      obtain-Silent (select_run request.run_id) (λ h. env.run_id h request.run_id) (λ w. refl)

  find_users-Silent : Silent find_users
  find_users-Silent =
      obtain-Silent (select_users request.user_email_list)
        (λ h. env.user_ids h request.user_email_list) (λ w. refl)

  other_text : (text : String) → (text == already_shared) ≡ false → text ≢ already_shared
  other_text text e same = false≢true (sym e ∙ (eq_iff text already_shared).1 same)

  nothing :
      (text : String) (t : State)
      → (text == already_shared) ≡ false
      → world t.trace ≡ world s.trace
      → Remains (stop text, t)
  nothing text t e same = inl (text, refl, other_text text e, same)

  -- However a sharing ends, it has not panicked, and has done nothing and stopped with another error
  -- than that about an access; or it has given the accesses for reading to the run of the request,
  -- and made no other call that has an effect, to a first part of the users that the database has for
  -- the addresses: to all of them if it returns without an error, and else to those before the
  -- first for whom the insertion failed, so that their accesses remain.
  pub share_run-Remains : Remains (share_run env request s)
  unfolding share_run share_with
  share_run-Remains =
      after_part Remains "something went wrong" (pool_conn env) _ s (pool_conn-NoPanic env)
        (λ e t k. nothing _ t refl (stopped _ (pool_conn-Silent env) k refl))
        λ _ s1 e1.
          let w1 = stopped _ (pool_conn-Silent env) e1 refl in
          after_part Remains "run does not exist" find_run _ s1 find_run-NoPanic
            (λ e t k. nothing _ t refl (stopped find_run find_run-Silent k w1))
            λ _ s2 e2.
              let w2 = stopped find_run find_run-Silent e2 w1 in
              after_part Remains "something went wrong" find_users _ s2 find_users-NoPanic
                (λ e t k. nothing _ t refl (stopped find_users find_users-Silent k w2))
                λ rows s3 e3.
                  let w3 = stopped find_users find_users-Silent e3 w2 in
                  let (found, _) =
                    obtain-value (select_users request.user_email_list)
                      (λ h. env.user_ids h request.user_email_list) e3 in
                  after_part Remains "something went wrong" (lift (scanned rows)) _ s3
                    (lift-NoPanic (scanned rows))
                    (λ e t k. nothing _ t refl (stopped _ (lift-Silent (scanned rows)) k w3))
                    λ all s4 e4.
                      let w4 = stopped _ (lift-Silent (scanned rows)) e4 w3 in
                      let (ids, _) = lift-value (scanned rows) s3 all s4 e4 in
                      shared
                        (nat_eq (length all) 0
                          || not (nat_eq (length all) (length request.user_email_list)))
                        s2.trace rows all s4 found ids w4
    where
      stopped :
          {A : Type 0} (m : Exec String A)
          → Silent m
          → {u : State} {r : Step String A} {t : State} → m u ≡ (r, t)
          → world u.trace ≡ world s.trace
          → world t.trace ≡ world s.trace
      stopped m sm {u} e w = ap (λ z. world z.1.trace) (sym e) ∙ sm.at u ∙ w

      shared :
          (b : Bool) (h : History) (rows : List (Reply String)) (all : List String) (t : State)
          → env.user_ids h request.user_email_list ≡ given rows
          → scanned rows ≡ given all
          → world t.trace ≡ world s.trace
          → Remains (
              (if b
                  then halt "please check the emails again. some of them do not exist"
                  else grant env request.run_id all)
                t)
      shared true h rows all t found ids w = nothing _ t refl w
      shared false h rows all t found ids w =
          let (users, others, split, g) = grant-Given env request.run_id all t in
          inr (
            h,
            rows,
            users,
            others,
            found,
            ids ∙ ap given split,
            subst (λ v. Given env request.run_id users others v (grant env request.run_id all t)) w
                g,
          )
