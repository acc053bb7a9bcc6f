-- ===== src/Service/Stops.antt =====
-- What has been done when a creation stops: a refusal before the program is made has done nothing
-- at all, and a failure after it has put nothing on the queue.
use runner_controller_micros.Base.{
  ◌≡◌, refl, sym, ◌⊎◌, inl, inr, String, ◌<>◌, ◌==◌, Bool, true, false, Option, none, some, not,
  if◌then◌else◌,
}
use runner_controller_micros.Base.Outcome.{Outcome, ok, err, panic}
use runner_controller_micros.Service.World.{
  dial_auth, authenticate, Verdict, Env, Request, Response, State, Kind,
}
use runner_controller_micros.Service.Exec.{Exec, pure, halt, obtain, lift_outcome}
use runner_controller_micros.Service.Exec.Runs.{stop-ne-value}
use runner_controller_micros.Service.Exec.Keeps.{
  Any, GoesOn, Stops, bind-GoesOn, bind-Stops, bind-Stops_last, pure-GoesOn, pure-Stops,
  halt-GoesOn, halt-Stops, obtain-GoesOn, obtain-Stops, lift-GoesOn, lift-Stops, on_error-GoesOn,
  on_error-Stops,
}
use runner_controller_micros.Service.Calls.{attempt, masked, verified, auth, body, decoded}
use runner_controller_micros.Service.Effects.{World, world}
use runner_controller_micros.Service.Create.{coded, prepare}

abbrev pub effects : State → World
effects s = world s.trace

verified-Stops : (v : Verdict) → Stops effects Any (verified v)
verified-Stops v = go v.valid
  where
    go : (b : Bool) → Stops effects Any (if not b then halt "unauthorized" else pure v)
    go true = pure-Stops v
    go false = halt-Stops "unauthorized" tt

verified-GoesOn : (v : Verdict) → GoesOn effects (verified v)
verified-GoesOn v = go v.valid
  where
    go : (b : Bool) → GoesOn effects (if not b then halt {E = String} "unauthorized" else pure v)
    go true = pure-GoesOn v
    go false = halt-GoesOn "unauthorized"

decoded-Stops : {D : Type 0} (o : Option D) → Stops effects Any (decoded o)
decoded-Stops none = halt-Stops "invalid JSON body" tt
decoded-Stops (some d) = pure-Stops d

decoded-GoesOn : {D : Type 0} (o : Option D) → GoesOn effects (decoded o)
decoded-GoesOn none = halt-GoesOn "invalid JSON body"
decoded-GoesOn (some d) = pure-GoesOn d

lift_outcome-Stops : {A : Type 0} (r : Outcome A) → Stops effects Any (lift_outcome r)
unfolding lift_outcome
lift_outcome-Stops (ok a) = pure-Stops a
lift_outcome-Stops (err m) = halt-Stops m tt
lift_outcome-Stops panic = record { at = λ s e t h. cc }

lift_outcome-GoesOn : {A : Type 0} (r : Outcome A) → GoesOn effects (lift_outcome r)
unfolding lift_outcome
lift_outcome-GoesOn (ok a) = pure-GoesOn a
lift_outcome-GoesOn (err m) = halt-GoesOn m
lift_outcome-GoesOn panic = record { at = λ s a t h. cc }

-- Refused as unauthorised, or as a bad request.
abbrev pub IsRefusal : {V : Type 0} → Response V → Type 0
IsRefusal r = (r.code ≡ 401) ⊎ (r.code ≡ 400)

module _ (env : Env) where
  dial : Exec String Unit
  dial = masked "something went wrong" (attempt env dial_auth)

  ask : String → Exec String Verdict
  ask token = masked "something went wrong" (obtain (authenticate token) (λ h. env.verdict h token))

  dial-GoesOn : GoesOn effects dial
  unfolding dial
  dial-GoesOn = on_error-GoesOn _ _ (obtain-GoesOn dial_auth _ (λ s. refl))

  dial-Stops : Stops effects Any dial
  unfolding dial
  dial-Stops = on_error-Stops _ _ (λ _. tt) (obtain-Stops dial_auth _ (λ s. refl))

  ask-GoesOn : (token : String) → GoesOn effects (ask token)
  unfolding ask
  ask-GoesOn token = on_error-GoesOn _ _ (obtain-GoesOn (authenticate token) _ (λ s. refl))

  ask-Stops : (token : String) → Stops effects Any (ask token)
  unfolding ask
  ask-Stops token = on_error-Stops _ _ (λ _. tt) (obtain-Stops (authenticate token) _ (λ s. refl))

  auth-Stops : (cookie : Option String) → Stops effects Any (auth env cookie)
  unfolding auth dial ask
  auth-Stops none = halt-Stops "unauthorized" tt
  auth-Stops (some token) =
      bind-Stops _ _ dial-Stops dial-GoesOn
        λ _. bind-Stops _ _ (ask-Stops token) (ask-GoesOn token) verified-Stops

  auth-GoesOn : (cookie : Option String) → GoesOn effects (auth env cookie)
  unfolding auth dial ask
  auth-GoesOn none = halt-GoesOn "unauthorized"
  auth-GoesOn (some token) =
      bind-GoesOn _ _ dial-GoesOn λ _. bind-GoesOn _ _ (ask-GoesOn token) verified-GoesOn

  body-Stops : (req : Request env.Value) → Stops effects Any (body env req)
  unfolding body
  body-Stops req = go (req.method == "POST")
    where
      go :
          (b : Bool)
          → Stops effects Any
              (if not b then halt (req.method <> " not allowed") else decoded req.body)
      go true = decoded-Stops req.body
      go false = halt-Stops _ tt

  body-GoesOn : (req : Request env.Value) → GoesOn effects (body env req)
  unfolding body
  body-GoesOn req = go (req.method == "POST")
    where
      go :
          (b : Bool)
          → GoesOn effects
              (if not b then halt {E = String} (req.method <> " not allowed") else decoded req.body)
      go true = decoded-GoesOn req.body
      go false = halt-GoesOn _

  module _ (K : Kind env.Value) where
    coded-Stops : (p : Outcome String × K.Req) → Stops effects Any (coded env K p)
    coded-Stops (r, q) =
        bind-Stops _ _ (lift_outcome-Stops r) (lift_outcome-GoesOn r) (λ text. pure-Stops (text, q))

    pub prepare-Stops : (req : Request env.Value) → Stops effects IsRefusal (prepare env K req)
    unfolding prepare
    prepare-Stops req =
        bind-Stops _ _ (on_error-Stops _ _ (λ _. inl refl) (auth-Stops req.token))
          (on_error-GoesOn _ _ (auth-GoesOn req.token))
          λ u.
            bind-Stops _ _ (on_error-Stops _ _ (λ _. inr refl) (body-Stops req))
              (on_error-GoesOn _ _ (body-GoesOn req))
              λ d.
                bind-Stops _ _ (on_error-Stops _ _ (λ _. inr refl) (lift-Stops _))
                  (on_error-GoesOn _ _ (lift-GoesOn _))
                  λ q.
                    bind-Stops_last _ _ (on_error-Stops _ _ (λ _. inr refl) (coded-Stops _))
                      λ a s e t h. stop-ne-value (sym h)
