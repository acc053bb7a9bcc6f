-- ===== src/Service/Plan.antt =====
-- What a creation sets out to do to the other programs (controller/ea.go and the three like it), and
-- actions that do a first part of a list of calls, however they end.
use runner_controller_micros.Base.{◌≡◌, refl, sym, ap, ◌∙◌, String, List, [], ◌∷◌, ◌++◌, All}
use mathlib.Core.List.{append-nil, append_assoc, reverse, reverse-cons}
use runner_controller_micros.Service.World.{
  Call, insert_run, insert_access, write_file, remove_file, put_object, push, History, Reply, given,
  refused, Env, State, Kind,
}
use runner_controller_micros.Service.Exec.{
  Step, value, stop, crash, Exec, continue, ◌>>=◌, obtain, obtained, on_error,
}
use runner_controller_micros.Service.Exec.Runs.{bind-value, obtain-value, on_error-value}
use runner_controller_micros.Service.Exec.Silent.{Silent}
use runner_controller_micros.Service.Calls.{queue}
use runner_controller_micros.Service.Effects.{World, apply, world}
use runner_controller_micros.Service.Create.{Submission, row, code_path, input_path}
use runner_controller_micros.Service.Progress.{object_name}

-- The effect of calls that succeed, in turn.
unfoldable pub carry : List Call → World → World
carry [] w = w
carry (c ∷ cs) w = carry cs (apply c w)

pub carry-append : (cs ds : List Call) (w : World) → carry (cs ++ ds) w ≡ carry ds (carry cs w)
unfolding carry
carry-append [] ds w = refl
carry-append (c ∷ cs) ds w = carry-append cs ds (apply c w)

-- A call that always has an effect.
abbrev pub Effective : Call → Type 0
Effective c = (w : World) → (apply c w).calls ≡ c ∷ w.calls

pub carry-calls :
    (cs : List Call) (w : World) → All Effective cs → (carry cs w).calls ≡ reverse cs ++ w.calls
unfolding carry
carry-calls [] w h = refl
carry-calls (c ∷ cs) w (e, h) =
    carry-calls cs (apply c w) h
    ∙ ap (λ l. reverse cs ++ l) (e w)
    ∙ sym (append_assoc (reverse cs) (c ∷ []) w.calls)
    ∙ ap (λ l. l ++ w.calls) (sym (reverse-cons c cs))

pub All-front : (cs ds : List Call) → All Effective (cs ++ ds) → All Effective cs
All-front [] ds h = tt
All-front (c ∷ cs) ds (e, h) = (e, All-front cs ds h)

-- A world that comes of a first part of the calls.
pub record Front (cs : List Call) (v w : World) : Type 0 where
  pub made : List Call
  pub left : List Call
  pub split : cs ≡ made ++ left
  pub comes : w ≡ carry made v

pub whole-Front : (cs : List Call) {v w : World} → w ≡ carry cs v → Front cs v w
whole-Front cs e = record { made = cs; left = []; split = sym (append-nil cs); comes = e }

-- A first part of the first calls is one of all.
pub Front-more : (cs ds : List Call) {v w : World} → Front cs v w → Front (cs ++ ds) v w
Front-more cs ds f = record {
  made = f.made;
  left = f.left ++ ds;
  split = ap (λ l. l ++ ds) f.split ∙ append_assoc f.made f.left ds;
  comes = f.comes;
}

-- After the first calls, a first part of the others.
pub Front-after :
    (cs ds : List Call) {u v w : World} → v ≡ carry cs u → Front ds v w → Front (cs ++ ds) u w
Front-after cs ds {u} e f = record {
  made = cs ++ f.made;
  left = f.left;
  split = ap (λ l. cs ++ l) f.split ∙ sym (append_assoc cs f.made f.left);
  comes = f.comes ∙ ap (carry f.made) e ∙ sym (carry-append cs f.made u);
}

-- The calls of a creation that have an effect, for the id of the run, the text of its request, and the
-- message: the rows of the run and of its owner's access; the program and the request, each written to
-- a file and sent to the bucket from there; both files removed; and the message pushed.
unfoldable pub plan :
    (env : Env) (K : Kind env.Value) → Submission env K → String → String → String → List Call
plan env K (user, content, text, request) run_id input message =
    insert_run (row env K user request)
    ∷ insert_access run_id user.id "write"
    ∷ write_file (code_path run_id) text
    ∷ put_object "code" (object_name run_id "code" "py") (code_path run_id)
    ∷ write_file (input_path run_id) input
    ∷ put_object "code" (object_name run_id "input" "json") (input_path run_id)
    ∷ remove_file (code_path run_id)
    ∷ remove_file (input_path run_id)
    ∷ push (queue env) message
    ∷ []

-- However the action ends it has done a first part of the calls, and all of them if it goes on.
pub record Does {E A : Type 0} (cs : List Call) (m : Exec E A) : Type 0 where
  pub at : (s : State) → Front cs (world s.trace) (world (m s).1.trace)
  pub full :
      (s : State) (a : A) (t : State)
      → m s ≡ (value a, t)
      → world t.trace ≡ carry cs (world s.trace)

module _ {E A : Type 0} where
  pub Silent-Does : (m : Exec E A) → Silent m → Does [] m
  unfolding carry
  Silent-Does m sm = record {
    at = λ s. whole-Front [] (sm.at s);
    full = λ s a t e. ap (λ r. world r.1.trace) (sym e) ∙ sm.at s;
  }

module _ {E A B : Type 0} where
  continue-Does :
      (cs ds : List Call) (f : A → Exec E B)
      → ((a : A) → Does ds (f a))
      → (r : Step E A) (t : State) (v : World)
      → ((a : A) → r ≡ value a → world t.trace ≡ carry cs v)
      → Front cs v (world t.trace)
      → Front (cs ++ ds) v (world (continue r f t).1.trace)
  continue-Does cs ds f df (value a) t v full front = Front-after cs ds (full a refl) ((df a).at t)
  continue-Does cs ds f df (stop x) t v full front = Front-more cs ds front
  continue-Does cs ds f df crash t v full front = Front-more cs ds front

  pub bind-Does :
      (cs ds : List Call) (m : Exec E A) (f : A → Exec E B)
      → Does cs m
      → ((a : A) → Does ds (f a))
      → Does (cs ++ ds) (m >>= f)
  unfolding ◌>>=◌
  bind-Does cs ds m f dm df = record {
    at = λ s.
        continue-Does cs ds f df (m s).0 (m s).1 (world s.trace)
          (λ a e. dm.full s a (m s).1 (ap (λ r. (r, (m s).1)) e)) (dm.at s);
    full = λ s b t h.
        let (a, u, e, k) = bind-value m f h in
        (df a).full u b t k
        ∙ ap (carry ds) (dm.full s a u e)
        ∙ sym (carry-append cs ds (world s.trace));
  }

module _ {E R A : Type 0} where
  pub on_error-Does :
      (cs : List Call) (g : E → R) (m : Exec E A) → Does cs m → Does cs (on_error g m)
  unfolding on_error
  on_error-Does cs g m dm = record {
    at = λ s. dm.at s;
    full = λ s a t e. dm.full s a t (on_error-value g m e);
  }

module _ {A : Type 0} where
  pub obtain-Does : (c : Call) (answer : History → Reply A) → Does (c ∷ []) (obtain c answer)
  unfolding obtained carry
  obtain-Does c answer = record {
    at = λ s. go s (answer s.trace);
    full = λ s a t e. ap (λ u. world u.trace) (obtain-value c answer e).1;
  }
    where
      go :
          (s : State) (r : Reply A)
          → Front (c ∷ []) (world s.trace) (world (obtained c r s).1.trace)
      go s (given a) = whole-Front (c ∷ []) refl
      go s (refused m) = record { made = []; left = c ∷ []; split = refl; comes = refl }
