-- ===== src/Runs/Given.antt =====
-- The loop over the users of a sharing, as far as it comes (modules/run.go).
use mathlib.Core.List.{reverse, reverse-cons, append_assoc}
use runner_controller_micros.Base.{
  ◌≡◌, refl, sym, ◌∙◌, ap, ◌⊎◌, inl, inr, String, List, [], ◌∷◌, ◌++◌, map,
}
use runner_controller_micros.Service.World.{Call, insert_access, failed, History, Env, State}
use runner_controller_micros.Service.Exec.{Step, value, stop, crash, Exec, continue, ◌>>=◌}
use runner_controller_micros.Service.Exec.Runs.{obtain-stop, on_error-value, on_error-stop}
use runner_controller_micros.Service.Exec.Panics.{NoPanic, on_error-NoPanic}
use runner_controller_micros.Service.Calls.{answered, masked, attempt}
use runner_controller_micros.Service.Calls.Panics.{calm}
use runner_controller_micros.Service.Effects.{World, world}
use runner_controller_micros.Service.Stages.{attempt-value}
use runner_controller_micros.Runs.Queries.{grant}
use runner_controller_micros.Runs.Granted.{granted}

abbrev pub already_shared : String
already_shared = "make sure the run is not already shared with the user"

-- To prove `P` of a block that starts with a part which cannot panic.
pub after_part :
    {A B : Type 0} (P : Step String B × State → Type 0) (text : String) (m : Exec String A)
    (f : A → Exec String B) (s : State)
    → NoPanic m
    → ((e : String) (t : State) → m s ≡ (stop e, t) → P (stop text, t))
    → ((a : A) (t : State) → m s ≡ (value a, t) → P (f a t))
    → P ((masked text m >>= f) s)
unfolding ◌>>=◌
after_part {A} P text m f s calm stops goes = go (masked text m s) refl
  where
    go : (r : Step String A × State) → masked text m s ≡ r → P (continue r.0 f r.1)
    go (value a, t) e = goes a t (on_error-value (λ _. text) m e)
    go (stop x, t) e = let (d, k, same) = on_error-stop (λ _. text) m e in rw same (stops d t k)
    go (crash, t) e = absurd ((on_error-NoPanic (λ _. text) m calm).at s t e)

module _ (env : Env) (id : String) where
  -- The rows for these users.
  abbrev pub inserts : List String → List Call
  inserts users = map (λ user. insert_access id user "read") users

  -- The users got their accesses from the world `v` on, which is all that was done, and the others are
  -- left, because the insertion for the first of them has failed.
  abbrev pub Given : List String → List String → World → Step String Unit × State → Type 0
  Given users others v (r, t) =
      (world t.trace ≡ granted id users v)
      × ((world t.trace).calls ≡ reverse (inserts users) ++ v.calls)
      × (((r ≡ value tt) × (others ≡ []))
          ⊎ ((user : String) × (rest : List String) × (before : History) × (r ≡ stop already_shared)
              × (others ≡ user ∷ rest)
              × (t.trace ≡ failed (insert_access id user "read") ∷ before)))

  Given-more :
      (user : String) (users others : List String) (v w : World) (r : Step String Unit × State)
      → w ≡ granted id (user ∷ []) v
      → Given users others w r
      → Given (user ∷ users) others v r
  unfolding granted
  Given-more user users others v w r e (same, calls, ended) = (
    same ∙ ap (granted id users) e,
    calls
        ∙ ap (λ z. reverse (inserts users) ++ z.calls) e
        ∙ sym (append_assoc (reverse (inserts users)) (insert_access id user "read" ∷ []) v.calls)
        ∙ ap (λ l. l ++ v.calls)
            (sym (reverse-cons (insert_access id user "read") (inserts users))),
    ended,
  )

  pub grant-Given :
      (all : List String) (s : State)
      → (users : List String) × (others : List String) × (all ≡ users ++ others)
        × Given users others (world s.trace) (grant env id all s)
  unfolding grant granted
  grant-Given [] s = ([], [], refl, (refl, refl, inl (refl, refl)))
  grant-Given (user ∷ users) s =
      let m = attempt env (insert_access id user "read") in
      after_part
        (λ r.
          (given_to : List String) × (others : List String) × (user ∷ users ≡ given_to ++ others)
          × Given given_to others (world s.trace) r)
        already_shared m (λ _. grant env id users) s (calm env _)
        (λ e t k.
          let w =
            obtain-stop (insert_access id user "read")
              (λ h. answered (env.perform h (insert_access id user "read"))) k in
          (
            [],
            user ∷ users,
            refl,
            (
              ap (λ u. world u.trace) w,
              ap (λ u. (world u.trace).calls) w,
              inr (user, users, s.trace, refl, refl, ap (λ u. u.trace) w),
            ),
          ))
        (λ a t k.
          let (given_to, others, split, g) = grant-Given users t in
          (
            user ∷ given_to,
            others,
            ap (λ l. user ∷ l) split,
            Given-more user given_to others (world s.trace) (world t.trace) (grant env id users t)
                (ap (λ u. world u.trace) (attempt-value env _ k)) g,
          ))
