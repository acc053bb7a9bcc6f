-- ===== src/Runs/Granted.antt =====
-- What an action of modules/run.go adds to the accesses, however it ends.
use runner_controller_micros.Base.{◌≡◌, refl, sym, ◌∙◌, ap, String, List, [], ◌∷◌, ◌++◌}
use runner_controller_micros.Service.World.{insert_access, Reply, given, refused, Env, State}
use runner_controller_micros.Service.Exec.{
  Step, value, stop, crash, Exec, continue, ◌>>=◌, obtained, on_error,
}
use runner_controller_micros.Service.Calls.{answered, attempt}
use runner_controller_micros.Service.Effects.{World, apply, world}
use runner_controller_micros.Runs.Queries.{grant}
use runner_controller_micros.Service.Exec.Silent.{Silent, pure-Silent}

-- The run is open to the users, for reading.
unfoldable pub granted : String → List String → World → World
granted id [] w = w
granted id (user ∷ users) w = granted id users (apply (insert_access id user "read") w)

granted-append :
    (id : String) (us vs : List String) (w : World)
    → granted id (us ++ vs) w ≡ granted id vs (granted id us w)
unfolding granted
granted-append id [] vs w = refl
granted-append id (u ∷ us) vs w = granted-append id us vs (apply (insert_access id u "read") w)

module _ {E A : Type 0} where
  -- All that the action does is to grant access to the run, to some users.
  pub record Grants (id : String) (m : Exec E A) : Type 0 where
    pub at :
        (s : State)
        → (users : List String) × (world (m s).1.trace ≡ granted id users (world s.trace))

  pub Silent-Grants : (id : String) (m : Exec E A) → Silent m → Grants id m
  unfolding granted
  Silent-Grants id m sm = record { at = λ s. ([], sm.at s) }

module _ {E A B : Type 0} where
  continue-Grants :
      (id : String) (r : Step E A) (f : A → Exec E B) (s : State)
      → ((a : A) → Grants id (f a))
      → (users : List String) × (world (continue r f s).1.trace ≡ granted id users (world s.trace))
  unfolding granted
  continue-Grants id (value a) f s gf = (gf a).at s
  continue-Grants id (stop e) f s gf = ([], refl)
  continue-Grants id crash f s gf = ([], refl)

  pub bind-Grants :
      (id : String) (m : Exec E A) (f : A → Exec E B)
      → Grants id m
      → ((a : A) → Grants id (f a))
      → Grants id (m >>= f)
  unfolding ◌>>=◌
  bind-Grants id m f gm gf = record {
    at = λ s.
        let (us, e) = gm.at s in
        let (vs, k) = continue-Grants id (m s).0 f (m s).1 gf in
        (us ++ vs, k ∙ ap (granted id vs) e ∙ sym (granted-append id us vs (world s.trace)));
  }

module _ {E R A : Type 0} where
  pub on_error-Grants :
      (id : String) (g : E → R) (m : Exec E A) → Grants id m → Grants id (on_error g m)
  unfolding on_error
  on_error-Grants id g m gm = record { at = λ s. gm.at s }

module _ (env : Env) where
  insert_access-Grants : (id user : String) → Grants id (attempt env (insert_access id user "read"))
  unfolding obtained granted
  insert_access-Grants id user = record {
    at = λ s. go s (answered (env.perform s.trace (insert_access id user "read")));
  }
    where
      go :
          (s : State) (r : Reply Unit)
          → (users : List String) × (world (obtained (insert_access id user "read") r s).1.trace
              ≡ granted id users (world s.trace))
      go s (given a) = (user ∷ [], refl)
      go s (refused m) = ([], refl)

  pub grant-Grants : (id : String) (users : List String) → Grants id (grant env id users)
  unfolding grant
  grant-Grants id [] = Silent-Grants id _ (pure-Silent tt)
  grant-Grants id (user ∷ users) =
      bind-Grants id _ _ (on_error-Grants id _ _ (insert_access-Grants id user))
        (λ _. grant-Grants id users)
