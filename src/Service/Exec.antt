-- ===== src/Service/Exec.antt =====
-- A handler as an action on the state: it goes on with a value, stops with an error or a response,
-- or panics. What was called before stays in the trace.
pub mod Runs
pub mod Keeps
pub mod Panics
pub mod Silent
use runner_controller_micros.Base.{◌≡◌, refl, String, Option, none, some, ◌∷◌, Bool, true, false}
use runner_controller_micros.Base.Outcome.{Outcome, ok, err, panic}
use runner_controller_micros.Service.World.{
  Call, Event, succeeded, failed, History, Reply, given, refused, State,
}

pub data Step (E A : Type 0) : Type 0 where
  value : A → Step E A
  stop : E → Step E A
  crash : Step E A

abbrev pub Exec : Type 0 → Type 0 → Type 0
Exec E A = State → Step E A × State

abbrev pub noted : Event → State → State
noted e s = record s { trace = e ∷ s.trace }

module _ {E A : Type 0} where
  abbrev pub pure : A → Exec E A
  pure a s = (value a, s)

  abbrev pub halt : E → Exec E A
  halt e s = (stop e, s)

module _ {E A B : Type 0} where
  abbrev pub continue : Step E A → (A → Exec E B) → Exec E B
  continue (value a) f s = f a s
  continue (stop e) f s = (stop e, s)
  continue crash f s = (crash, s)

  infixl 10 ◌>>=◌ ◌>>◌
  unfoldable pub ◌>>=◌ : Exec E A → (A → Exec E B) → Exec E B
  ◌>>=◌ m f s = let (r, s') = m s in continue r f s'

  abbrev pub ◌>>◌ : Exec E A → Exec E B → Exec E B
  m >> n = m >>= λ _. n

module _ {A : Type 0} where
  unfoldable pub lift : Reply A → Exec String A
  lift (given a) s = (value a, s)
  lift (refused m) s = (stop m, s)

  unfoldable pub lift_outcome : Outcome A → Exec String A
  lift_outcome (ok a) s = (value a, s)
  lift_outcome (err m) s = (stop m, s)
  lift_outcome panic s = (crash, s)

  -- A call with a result.
  unfoldable pub obtained : Call → Reply A → Exec String A
  obtained c (given a) s = (value a, noted (succeeded c) s)
  obtained c (refused m) s = (stop m, noted (failed c) s)

  abbrev pub obtain : Call → (History → Reply A) → Exec String A
  obtain c answer s = obtained c (answer s.trace) s

-- What a call with the error `m`, if any, leaves in the trace.
abbrev pub event : Call → Option String → Event
event c none = succeeded c
event c (some m) = failed c

module _ {E A : Type 0} where
  abbrev pub crash_on_stop : Step E A → Step E A
  crash_on_stop (stop e) = crash
  crash_on_stop r = r

  -- The value beside an error is nil, and the caller goes on to call its method, which panics.
  unfoldable pub or_nil : Exec E A → Exec E A
  or_nil m s = let (r, s') = m s in (crash_on_stop r, s')

  -- `defer`: the function is called at the end, however that comes.
  unfoldable pub deferred : (State → State) → Exec E A → Exec E A
  deferred f m s = let (r, s') = m s in (r, f s')

-- An error becomes a response.
module _ {E R A : Type 0} where
  abbrev pub restop : (E → R) → Step E A → Step R A
  restop g (value a) = value a
  restop g (stop e) = stop (g e)
  restop g crash = crash

  unfoldable pub on_error : (E → R) → Exec E A → Exec R A
  on_error g m s = let (r, s') = m s in (restop g r, s')
