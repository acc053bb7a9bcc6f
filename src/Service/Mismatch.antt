-- ===== src/Service/Mismatch.antt =====
-- Requests of which a value does not fit its field.
use runner_controller_micros.Base.{◌≡◌, ◌≢◌, refl, sym, ap, ◌∙◌, String, none, some, ◌∷◌, map}
use runner_controller_micros.Base.Floats.{Floats, IsLawful}
use runner_controller_micros.Json.Value.{Json}
use runner_controller_micros.Json.Struct.{Field, find_field}
use runner_controller_micros.Json.Order.{SameMap, done, keep, swap, chain}
use runner_controller_micros.Json.Keeps.{refused-ne-given}
use runner_controller_micros.Json.Errors.{from_json-refused}
use runner_controller_micros.Ea.Config.{Ea}
use runner_controller_micros.Ea.Decoding.{ea_from_json, ea_fields, zero_ea}
use runner_controller_micros.Service.World.{Fields, Env, Request, Response, State, Kind}
use runner_controller_micros.Service.Exec.{Step, value, stop, crash, continue, ◌>>=◌}
use runner_controller_micros.Service.Progress.{prepare-value}
use runner_controller_micros.Service.Replies.{answered_with}
use runner_controller_micros.Service.Stops.{effects, IsRefusal, prepare-Stops}
use runner_controller_micros.Service.Kinds.{ea_kind, create_ea}
use runner_controller_micros.Service.Create.{Submission, prepare, submit, create}
use runner_controller_micros.Service.Requests.{viewed, ea_code-ne-panic}
use runner_controller_micros.Service.Panics.{Sound, prepare-NoPanic}

SameMap-viewed :
    {V N : Type 0} (view : V → Json N) {m n : Fields V}
    → SameMap m n
    → SameMap (map (λ e. (e.0, view e.1)) m) (map (λ e. (e.0, view e.1)) n)
SameMap-viewed view done = done
SameMap-viewed view (keep k v s) = keep k (view v) (SameMap-viewed view s)
SameMap-viewed view (swap j k v w h) = swap j k (view v) (view w) h
SameMap-viewed view (chain s t) = chain (SameMap-viewed view s) (SameMap-viewed view t)

module _ (env : Env) (K : Kind env.Value) where
  -- A request from which no submission comes is refused, and has done nothing.
  refused_early :
      Sound env K
      → (req : Request env.Value) (s : State)
      → ((sub : Submission env K) (u : State) → prepare env K req s ≡ (value sub, u) → ⊥)
      → (r : Response (Fields env.Value)) × ((create env K req s).0 ≡ some r)
        × IsRefusal r
        × (effects (create env K req s).1 ≡ effects s)
  unfolding create ◌>>=◌
  refused_early sound req s never = go (prepare env K req s) refl
    where
      go :
          (p : Step (Response (Fields env.Value)) (Submission env K) × State)
          → prepare env K req s ≡ p
          → (r : Response (Fields env.Value)) × (answered_with (continue p.0 (submit env K) p.1).0
              ≡ some r)
            × IsRefusal r
            × (effects (continue p.0 (submit env K) p.1).1 ≡ effects s)
      go (value sub, u) e = absurd (never sub u e)
      go (stop x, u) e =
          let (refusal, same) = (prepare-Stops env K req).at s x u e in (x, refl, refusal, same)
      go (crash, u) e = absurd ((prepare-NoPanic env K sound req).at s u e)

-- A request to CreateEA of which a value does not fit the field that its key names is always
-- answered, with 401 or 400, wherever the entry stands in the body and whatever the other programs
-- answer, and has had no effect on the database, the files, the object store and the queue.
pub ea_mismatch-refused :
    (F : Floats)
    → IsLawful F
    → (env : Env) (view : env.Value → Json F.Float) (req : Request env.Value) (s : State)
      (m rest : Fields env.Value) (key : String) (v : env.Value) (f : Field F.Float (Ea F))
    → req.body ≡ some (some m)
    → SameMap m ((key, v) ∷ rest)
    → find_field key (ea_fields F) ≡ some f
    → ((ea : Ea F) → (f.set (view v) ea).1 ≢ none)
    → (r : Response (Fields env.Value)) × ((create_ea F env
          (λ d. ea_from_json F (viewed view d))
          req
          s).0
        ≡ some r)
      × IsRefusal r
      × (effects (create_ea F env (λ d. ea_from_json F (viewed view d)) req s).1 ≡ effects s)
unfolding create_ea ea_from_json
ea_mismatch-refused F L env view req s m rest key v f body same found unfit =
    let K = ea_kind F env.Value (λ d. ea_from_json F (viewed view d)) in
    refused_early env K (ea_code-ne-panic F L) req s λ sub u e.
      let p = (prepare-value env K req s sub u e).0 in
      let content = some-injective (sym body ∙ p.decoded) in
      let (_, q) =
        from_json-refused "EA" (ea_fields F) key (view v) f found unfit (zero_ea F)
          (SameMap-viewed view same) in
      refused-ne-given (sym q ∙ ap (λ d. ea_from_json F (viewed view d)) content ∙ p.from_json)
  where
    some-injective : {A : Type 0} {a b : A} → some a ≡ some b → a ≡ b
    some-injective h = cc
