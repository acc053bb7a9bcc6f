-- ===== src/Service/Exec/Silent.antt =====
-- Actions without an effect on the other programs, however they end.
use runner_controller_micros.Base.{◌≡◌, refl, ◌∙◌}
use runner_controller_micros.Base.Outcome.{Outcome, ok, err, panic}
use runner_controller_micros.Service.World.{Call, History, Reply, given, refused, State}
use runner_controller_micros.Service.Exec.{
  Step, value, stop, crash, Exec, pure, halt, continue, ◌>>=◌, lift, obtain, obtained, on_error,
  or_nil, lift_outcome,
}
use runner_controller_micros.Service.Effects.{World, apply, world}

module _ {E A : Type 0} where
  -- The action has no effect.
  pub record Silent (m : Exec E A) : Type 0 where
    pub at : (s : State) → world (m s).1.trace ≡ world s.trace

  pub pure-Silent : (a : A) → Silent (pure a)
  pure-Silent a = record { at = λ s. refl }

  pub halt-Silent : (e : E) → Silent (halt e)
  halt-Silent e = record { at = λ s. refl }

module _ {E A B : Type 0} where
  continue-Silent :
      (r : Step E A) (f : A → Exec E B) (s : State)
      → ((a : A) → Silent (f a))
      → world (continue r f s).1.trace ≡ world s.trace
  continue-Silent (value a) f s sf = (sf a).at s
  continue-Silent (stop e) f s sf = refl
  continue-Silent crash f s sf = refl

  pub bind-Silent :
      (m : Exec E A) (f : A → Exec E B) → Silent m → ((a : A) → Silent (f a)) → Silent (m >>= f)
  unfolding ◌>>=◌
  bind-Silent m f sm sf = record { at = λ s. continue-Silent (m s).0 f (m s).1 sf ∙ sm.at s }

module _ {E R A : Type 0} where
  pub on_error-Silent : (g : E → R) (m : Exec E A) → Silent m → Silent (on_error g m)
  unfolding on_error
  on_error-Silent g m sm = record { at = λ s. sm.at s }

module _ {E A : Type 0} where
  pub or_nil-Silent : (m : Exec E A) → Silent m → Silent (or_nil m)
  unfolding or_nil
  or_nil-Silent m sm = record { at = λ s. sm.at s }

module _ {A : Type 0} where
  pub lift-Silent : (r : Reply A) → Silent (lift r)
  unfolding lift
  lift-Silent (given a) = record { at = λ s. refl }
  lift-Silent (refused m) = record { at = λ s. refl }

  pub lift_outcome-Silent : (r : Outcome A) → Silent (lift_outcome r)
  unfolding lift_outcome
  lift_outcome-Silent (ok a) = record { at = λ s. refl }
  lift_outcome-Silent (err m) = record { at = λ s. refl }
  lift_outcome-Silent panic = record { at = λ s. refl }

  obtained-world :
      (c : Call) (r : Reply A) (s : State)
      → ((w : World) → apply c w ≡ w)
      → world (obtained c r s).1.trace ≡ world s.trace
  unfolding obtained
  obtained-world c (given a) s same = same (world s.trace)
  obtained-world c (refused m) s same = refl

  pub obtain-Silent :
      (c : Call) (answer : History → Reply A)
      → ((w : World) → apply c w ≡ w)
      → Silent (obtain c answer)
  obtain-Silent c answer same = record { at = λ s. obtained-world c (answer s.trace) s same }
