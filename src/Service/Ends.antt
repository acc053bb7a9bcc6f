-- ===== src/Service/Ends.antt =====
-- Actions that panic on the nil beside an error, and deferred calls.
use runner_controller_micros.Base.{◌≡◌, refl, sym, ap, ◌∙◌, String, Option, none, some, ◌∷◌}
use runner_controller_micros.Service.World.{Call, History, State}
use runner_controller_micros.Service.Exec.{
  Step, value, stop, crash, Exec, event, crash_on_stop, or_nil, deferred,
}
use runner_controller_micros.Service.Exec.Keeps.{GoesOn, Stops}
use runner_controller_micros.Service.Exec.Panics.{NoPanic}
use runner_controller_micros.Service.Effects.{World, apply, world}
use runner_controller_micros.Service.Failures.{queued}

module _ {E A : Type 0} where
  pub or_nil-value :
      (m : Exec E A) {s : State} {a : A} {t : State}
      → or_nil m s ≡ (value a, t)
      → m s ≡ (value a, t)
  unfolding or_nil
  or_nil-value m {s} {a} {t} h = go (m s) refl h
    where
      go :
          (p : Step E A × State)
          → m s ≡ p
          → ◌≡◌ {A = Step E A × State} (crash_on_stop p.0, p.1) (value a, t)
          → m s ≡ (value a, t)
      go (value x, u) e k = cc
      go (stop x, u) e k = cc
      go (crash, u) e k = cc

  or_nil-no_stop : (m : Exec E A) (s : State) (x : E) (t : State) → or_nil m s ≡ (stop x, t) → ⊥
  unfolding or_nil
  or_nil-no_stop m s x t h = go (m s) h
    where
      go :
          (p : Step E A × State)
          → ◌≡◌ {A = Step E A × State} (crash_on_stop p.0, p.1) (stop x, t)
          → ⊥
      go (value x, u) k = cc
      go (stop x, u) k = cc
      go (crash, u) k = cc

  -- What panics on the nil of an action that does not panic is an error of it.
  pub or_nil-panic :
      (m : Exec E A) {s t : State}
      → NoPanic m
      → or_nil m s ≡ (crash, t)
      → (x : E) × (m s ≡ (stop x, t))
  unfolding or_nil
  or_nil-panic m {s} {t} calm_m h = go (m s) refl h
    where
      go :
          (p : Step E A × State)
          → m s ≡ p
          → ◌≡◌ {A = Step E A × State} (crash_on_stop p.0, p.1) (crash, t)
          → (x : E) × (m s ≡ (stop x, t))
      go (value x, u) e k = cc
      go (stop x, u) e k = (x, cc)
      go (crash, u) e k = absurd (calm_m.at s u e)

  pub deferred-step :
      (f : State → State) (m : Exec E A) {s : State} {r : Step E A} {t : State}
      → deferred f m s ≡ (r, t)
      → (u : State) × (m s ≡ (r, u)) × (t ≡ f u)
  unfolding deferred
  deferred-step f m {s} h = ((m s).1, ap (λ p. (p.0, (m s).1)) h, sym (ap (λ p. p.1) h))

pub event-world :
    (c : Call) (m : Option String) (h : History)
    → ((w : World) → apply c w ≡ w)
    → world (event c m ∷ h) ≡ world h
event-world c none h same = same (world h)
event-world c (some m) h same = refl

module _ {E A : Type 0} where
  pub deferred-Stops :
      {P : E → Type 0} (f : State → State) (m : Exec E A)
      → ((s : State) → queued (f s) ≡ queued s)
      → Stops queued P m
      → Stops queued P (deferred f m)
  deferred-Stops f m same sm = record {
    at = λ s e t h.
        let (u, k, q) = deferred-step f m h in
        let (p, still) = sm.at s e u k in (p, ap queued q ∙ (same u ∙ still));
  }

  pub or_nil-Stops : {P : E → Type 0} (m : Exec E A) → Stops queued P (or_nil m)
  or_nil-Stops m = record { at = λ s e t h. absurd (or_nil-no_stop m s e t h) }

  pub or_nil-GoesOn : (m : Exec E A) → GoesOn queued m → GoesOn queued (or_nil m)
  or_nil-GoesOn m gm = record { at = λ s a t h. gm.at s a t (or_nil-value m h) }
