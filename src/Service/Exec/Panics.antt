-- ===== src/Service/Exec/Panics.antt =====
-- Whether an action panics: one rule for each way to build it.
use runner_controller_micros.Base.{◌≡◌, refl, ◌≢◌, ◌⊎◌, inl, inr}
use runner_controller_micros.Base.Outcome.{Outcome, ok, err, panic}
use runner_controller_micros.Service.World.{Call, History, Reply, given, refused, State}
use runner_controller_micros.Service.Exec.{
  Step, value, stop, crash, Exec, pure, halt, ◌>>=◌, continue, lift, lift_outcome, obtain, obtained,
  on_error, restop,
}

pub record NoPanic {E A : Type 0} (m : Exec E A) : Type 0 where
  pub at : (s : State) (t : State) → m s ≡ (crash, t) → ⊥

module _ {E A : Type 0} where
  pub pure-NoPanic : (a : A) → NoPanic (pure {E = E} a)
  pure-NoPanic a = record { at = λ s t h. cc }

  pub halt-NoPanic : (e : E) → NoPanic (halt {A = A} e)
  halt-NoPanic e = record { at = λ s t h. cc }

module _ {E A B : Type 0} where
  pub bind-panic :
      (m : Exec E A) (f : A → Exec E B) {s t : State}
      → (m >>= f) s ≡ (crash, t)
      → (m s ≡ (crash, t)) ⊎ ((a : A) × (u : State) × (m s ≡ (value a, u)) × (f a u ≡ (crash, t)))
  unfolding ◌>>=◌
  bind-panic m f {s} {t} h = go (m s) refl h
    where
      go :
          (p : Step E A × State)
          → m s ≡ p
          → continue p.0 f p.1 ≡ (crash, t)
          → (m s ≡ (crash, t))
            ⊎ ((a : A) × (u : State) × (m s ≡ (value a, u)) × (f a u ≡ (crash, t)))
      go (value a, u) e k = inr (a, u, e, k)
      go (stop x, u) e k = cc
      go (crash, u) e k = inl cc

  pub bind-NoPanic :
      (m : Exec E A) (f : A → Exec E B) → NoPanic m → ((a : A) → NoPanic (f a)) → NoPanic (m >>= f)
  bind-NoPanic m f nm nf = record {
    at = λ s t h. elim (bind-panic m f h) [
      | inl k ↦ nm.at s t k
      | inr (a, u, _, k) ↦ (nf a).at u t k
    ];
  }

module _ {A : Type 0} where
  pub obtain-NoPanic : (c : Call) (answer : History → Reply A) → NoPanic (obtain c answer)
  unfolding obtained
  obtain-NoPanic c answer = record { at = λ s t h. go s t (answer s.trace) h }
    where
      go : (s t : State) (r : Reply A) → obtained c r s ≡ (crash, t) → ⊥
      go s t (given a) h = cc
      go s t (refused m) h = cc

  pub lift-NoPanic : (r : Reply A) → NoPanic (lift r)
  unfolding lift
  lift-NoPanic (given a) = pure-NoPanic a
  lift-NoPanic (refused m) = halt-NoPanic m

  pub lift_outcome-NoPanic : (r : Outcome A) → r ≢ panic → NoPanic (lift_outcome r)
  unfolding lift_outcome
  lift_outcome-NoPanic (ok a) h = pure-NoPanic a
  lift_outcome-NoPanic (err m) h = halt-NoPanic m
  lift_outcome-NoPanic panic h = absurd (h refl)

module _ {E R A : Type 0} where
  pub on_error-panic :
      (g : E → R) (m : Exec E A) {s t : State} → on_error g m s ≡ (crash, t) → m s ≡ (crash, t)
  unfolding on_error
  on_error-panic g m {s} {t} h = go (m s) refl h
    where
      go :
          (p : Step E A × State)
          → m s ≡ p
          → ◌≡◌ {A = Step R A × State} (restop g p.0, p.1) (crash, t)
          → m s ≡ (crash, t)
      go (value x, u) e k = cc
      go (stop x, u) e k = cc
      go (crash, u) e k = cc

  pub on_error-NoPanic : (g : E → R) (m : Exec E A) → NoPanic m → NoPanic (on_error g m)
  on_error-NoPanic g m nm = record { at = λ s t h. nm.at s t (on_error-panic g m h) }
