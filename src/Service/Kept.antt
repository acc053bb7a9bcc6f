-- ===== src/Service/Kept.antt =====
-- The handlers that create a run keep the messages backed, however they end: one rule for each way to
-- build an action, then the parts of the handler.
pub mod Parts
pub mod Creation
use runner_controller_micros.Base.{
  ◌≡◌, refl, sym, subst, ap, ◌∙◌, ◌≢◌, String, ◌<>◌, Option, none, some, ◌∷◌, eq_refl,
}
use mathlib.Core.List.{Mem, mem-cons_self}
use runner_controller_micros.Service.World.{
  Call, write_file, put_object, make_dir, insert_access, push, declare_queue, close_channel,
  close_connection, History, Reply, given, refused, Verdict, Env, Request, State, Kind,
}
use runner_controller_micros.Service.Exec.{
  Step, value, stop, crash, Exec, event, continue, ◌>>=◌, obtain, obtained, on_error, or_nil,
  deferred,
}
use runner_controller_micros.Service.Exec.Runs.{on_error-value}
use runner_controller_micros.Service.Exec.Silent.{Silent}
use runner_controller_micros.Service.Calls.{closing}
use runner_controller_micros.Service.Effects.{World, world, world-replay}
use runner_controller_micros.Service.Backing.{Meaning, Backed, Fine, apply-Backed}

-- From a world where `P` holds, the action keeps the messages backed, however it ends.
pub record Keeps (env : Env) (M : Meaning env) {E A : Type 0} (P : World → Type 0) (m : Exec E A)
    : Type 0 where
  pub at :
      (s : State)
      → P (world s.trace)
      → Backed env M (world s.trace)
      → Backed env M (world (m s).1.trace)

-- No condition.
abbrev pub Anywhere : World → Type 0
Anywhere w = Unit

module _ (env : Env) (M : Meaning env) where
  pub Silent-Keeps : {E A : Type 0} {P : World → Type 0} (m : Exec E A) → Silent m → Keeps env M P m
  Silent-Keeps m sm = record { at = λ s p h. subst (Backed env M) (sym (sm.at s)) h }

  continue-Keeps :
      {E A B : Type 0} {Q : A → World → Type 0} (f : A → Exec E B)
      → ((a : A) → Keeps env M (Q a) (f a))
      → (r : Step E A) (t : State) → ((a : A) → r ≡ value a → Q a (world t.trace))
      → Backed env M (world t.trace)
      → Backed env M (world (continue r f t).1.trace)
  continue-Keeps f kf (value a) t q h = (kf a).at t (q a refl) h
  continue-Keeps f kf (stop x) t q h = h
  continue-Keeps f kf crash t q h = h

  pub bind-Keeps :
      {E A B : Type 0} {P : World → Type 0} (Q : A → World → Type 0) (m : Exec E A)
      (f : A → Exec E B)
      → Keeps env M P m
      → ((s : State) (a : A) (t : State)
          → P (world s.trace)
          → m s ≡ (value a, t)
          → Q a (world t.trace))
      → ((a : A) → Keeps env M (Q a) (f a))
      → Keeps env M P (m >>= f)
  unfolding ◌>>=◌
  bind-Keeps Q m f km post kf = record {
    at = λ s p h.
        continue-Keeps {Q = Q} f kf (m s).0 (m s).1
          (λ a e. post s a (m s).1 p (ap (λ r. (r, (m s).1)) e)) (km.at s p h);
  }

  pub weaken-Keeps :
      {E A : Type 0} {P Q : World → Type 0} (m : Exec E A)
      → ((w : World) → Q w → P w)
      → Keeps env M P m
      → Keeps env M Q m
  weaken-Keeps m weaker km = record { at = λ s q h. km.at s (weaker (world s.trace) q) h }

  pub on_error-Keeps :
      {E R A : Type 0} {P : World → Type 0} (g : E → R) (m : Exec E A)
      → Keeps env M P m
      → Keeps env M P (on_error g m)
  unfolding on_error
  on_error-Keeps g m km = record { at = λ s p h. km.at s p h }

  pub or_nil-Keeps :
      {E A : Type 0} {P : World → Type 0} (m : Exec E A)
      → Keeps env M P m
      → Keeps env M P (or_nil m)
  unfolding or_nil
  or_nil-Keeps m km = record { at = λ s p h. km.at s p h }

  pub deferred-Keeps :
      {E A : Type 0} {P : World → Type 0} (f : State → State) (m : Exec E A)
      → ((s : State) → world (f s).trace ≡ world s.trace)
      → Keeps env M P m
      → Keeps env M P (deferred f m)
  unfolding deferred
  deferred-Keeps f m same km = record {
    at = λ s p h. subst (Backed env M) (sym (same (m s).1)) (km.at s p h);
  }

  pub obtain-Keeps :
      {A : Type 0} {P : World → Type 0} (c : Call) (answer : History → Reply A)
      → ((w : World) → P w → Fine env M w c)
      → Keeps env M P (obtain c answer)
  unfolding obtained
  obtain-Keeps {A} {P} c answer fine = record { at = λ s p h. go s (answer s.trace) p h }
    where
      go :
          (s : State) (r : Reply A)
          → P (world s.trace)
          → Backed env M (world s.trace)
          → Backed env M (world (obtained c r s).1.trace)
      go s (given a) p h =
          apply-Backed env M c (world s.trace) (world-replay s.trace) (fine (world s.trace) p) h
      go s (refused m) p h = h
