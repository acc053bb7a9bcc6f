-- ===== src/Service/Exec/Runs.antt =====
-- What a run of an action tells of its parts.
use runner_controller_micros.Base.{◌≡◌, refl, String, inl, inr, ◌⊎◌}
use runner_controller_micros.Service.World.{
  Call, succeeded, failed, History, Reply, given, refused, State,
}
use runner_controller_micros.Service.Exec.{
  Step, value, stop, crash, Exec, noted, ◌>>=◌, obtain, obtained, on_error, restop, continue,
}

module _ {E A : Type 0} where
  Step-cases : (r : Step E A) → ((a : A) × (r ≡ value a)) ⊎ ((e : E) × (r ≡ stop e)) ⊎ (r ≡ crash)
  Step-cases (value a) = inl (a, refl)
  Step-cases (stop e) = inr (inl (e, refl))
  Step-cases crash = inr (inr refl)

  pub value-injective :
      {a b : A} {s t : State}
      → ◌≡◌ {A = Step E A × State} (value a, s) (value b, t)
      → (a ≡ b) × (s ≡ t)
  value-injective h = (cc, cc)

  pub stop-injective :
      {d e : E} {s t : State}
      → ◌≡◌ {A = Step E A × State} (stop d, s) (stop e, t)
      → (d ≡ e) × (s ≡ t)
  stop-injective h = (cc, cc)

  pub stop-ne-value :
      {e : E} {a : A} {s t : State} → ◌≡◌ {A = Step E A × State} (stop e, s) (value a, t) → ⊥
  stop-ne-value h = cc

module _ {E A B : Type 0} where
  -- A block that goes on: its first action did, and the rest from where that came to.
  pub bind-value :
      (m : Exec E A) (f : A → Exec E B) {s : State} {b : B} {t : State}
      → (m >>= f) s ≡ (value b, t)
      → (a : A) × (u : State) × (m s ≡ (value a, u)) × (f a u ≡ (value b, t))
  unfolding ◌>>=◌
  bind-value m f {s} {b} {t} h = go (m s) refl h
    where
      go :
          (p : Step E A × State)
          → m s ≡ p
          → continue p.0 f p.1 ≡ (value b, t)
          → (a : A) × (u : State) × (m s ≡ (value a, u)) × (f a u ≡ (value b, t))
      go (value a, u) e k = (a, u, e, k)
      go (stop x, u) e k = cc
      go (crash, u) e k = cc

  -- A block that stops: its first action did, or the rest.
  pub bind-stop :
      (m : Exec E A) (f : A → Exec E B) {s : State} {e : E} {t : State}
      → (m >>= f) s ≡ (stop e, t)
      → (m s ≡ (stop e, t)) ⊎ ((a : A) × (u : State) × (m s ≡ (value a, u)) × (f a u ≡ (stop e, t)))
  unfolding ◌>>=◌
  bind-stop m f {s} {e} {t} h = go (m s) refl h
    where
      go :
          (p : Step E A × State)
          → m s ≡ p
          → continue p.0 f p.1 ≡ (stop e, t)
          → (m s ≡ (stop e, t))
            ⊎ ((a : A) × (u : State) × (m s ≡ (value a, u)) × (f a u ≡ (stop e, t)))
      go (value a, u) q k = inr (a, u, q, k)
      go (stop x, u) q k = inl cc
      go (crash, u) q k = cc

module _ {A : Type 0} where
  pub obtain-value :
      (c : Call) (answer : History → Reply A) {s : State} {a : A} {t : State}
      → obtain c answer s ≡ (value a, t)
      → (answer s.trace ≡ given a) × (t ≡ noted (succeeded c) s)
  unfolding obtained
  obtain-value c answer {s} {a} {t} h = go (answer s.trace) refl h
    where
      go :
          (r : Reply A)
          → answer s.trace ≡ r
          → obtained c r s ≡ (value a, t)
          → (answer s.trace ≡ given a) × (t ≡ noted (succeeded c) s)
      go (given x) e k = (cc, cc)
      go (refused m) e k = cc

  pub obtain-stop :
      (c : Call) (answer : History → Reply A) {s : State} {e : String} {t : State}
      → obtain c answer s ≡ (stop e, t)
      → t ≡ noted (failed c) s
  unfolding obtained
  obtain-stop c answer {s} {e} {t} h = go (answer s.trace) h
    where
      go : (r : Reply A) → obtained c r s ≡ (stop e, t) → t ≡ noted (failed c) s
      go (given x) k = cc
      go (refused m) k = cc

module _ {E R A : Type 0} where
  pub on_error-value :
      (g : E → R) (m : Exec E A) {s : State} {a : A} {t : State}
      → on_error g m s ≡ (value a, t)
      → m s ≡ (value a, t)
  unfolding on_error
  on_error-value g m {s} {a} {t} h = go (m s) refl h
    where
      go :
          (p : Step E A × State)
          → m s ≡ p
          → ◌≡◌ {A = Step R A × State} (restop g p.0, p.1) (value a, t)
          → m s ≡ (value a, t)
      go (value x, u) e k = cc
      go (stop x, u) e k = cc
      go (crash, u) e k = cc

  pub on_error-stop :
      (g : E → R) (m : Exec E A) {s : State} {r : R} {t : State}
      → on_error g m s ≡ (stop r, t)
      → (e : E) × (m s ≡ (stop e, t)) × (r ≡ g e)
  unfolding on_error
  on_error-stop g m {s} {r} {t} h = go (m s) refl h
    where
      go :
          (p : Step E A × State)
          → m s ≡ p
          → ◌≡◌ {A = Step R A × State} (restop g p.0, p.1) (stop r, t)
          → (e : E) × (m s ≡ (stop e, t)) × (r ≡ g e)
      go (value x, u) e k = cc
      go (stop x, u) e k = (x, cc, cc)
      go (crash, u) e k = cc

-- To prove `P` of a block that goes on, after its first action.
module _ {R A B : Type 0} where
  pub after_value :
      {P : Type 0} (m : Exec R A) (f : A → Exec R B) (s : State) {b : B} {t : State}
      → (m >>= f) s ≡ (value b, t)
      → ((a : A) (u : State) → m s ≡ (value a, u) → f a u ≡ (value b, t) → P)
      → P
  after_value m f s h rest = let (a, u, e, k) = bind-value m f h in rest a u e k

  pub after_answer :
      {E : Type 0} {P : Type 0} (g : E → R) (m : Exec E A) (f : A → Exec R B) (s : State) {b : B}
      {t : State}
      → (on_error g m >>= f) s ≡ (value b, t)
      → ((a : A) (u : State) → m s ≡ (value a, u) → f a u ≡ (value b, t) → P)
      → P
  after_answer g m f s h rest =
      let (a, u, e, k) = bind-value (on_error g m) f h in rest a u (on_error-value g m e) k
