-- ===== src/Service/Exec/Keeps.antt =====
-- What an action leaves unchanged when it goes on, and what it guarantees when it stops: a
-- predicate of the error, and the same view of the state. One rule for each way to build an action.
use runner_controller_micros.Base.{◌≡◌, sym, subst, ◌∙◌, ap, inl, inr, String}
use runner_controller_micros.Service.World.{
  Call, succeeded, failed, History, Reply, given, refused, State,
}
use runner_controller_micros.Service.Exec.{
  value, stop, Exec, noted, pure, halt, ◌>>=◌, obtain, on_error, lift,
}
use runner_controller_micros.Service.Exec.Runs.{
  bind-value, bind-stop, obtain-value, on_error-value, on_error-stop, value-injective,
  stop-ne-value, stop-injective, obtain-stop,
}

-- No condition on an error.
abbrev pub Any : String → Type 0
Any e = Unit

module _ {X : Type 0} (view : State → X) where
  pub record GoesOn {E A : Type 0} (m : Exec E A) : Type 0 where
    pub at : (s : State) (a : A) (t : State) → m s ≡ (value a, t) → view t ≡ view s

  pub record Stops {E A : Type 0} (P : E → Type 0) (m : Exec E A) : Type 0 where
    pub at : (s : State) (e : E) (t : State) → m s ≡ (stop e, t) → P e × (view t ≡ view s)

module _ {X : Type 0} {view : State → X} where
  module _ {E A B : Type 0} where
    pub bind-GoesOn :
        (m : Exec E A) (f : A → Exec E B)
        → GoesOn view m
        → ((a : A) → GoesOn view (f a))
        → GoesOn view (m >>= f)
    bind-GoesOn m f gm gf = record {
      at = λ s b t h. let (a, u, e, k) = bind-value m f h in (gf a).at u b t k ∙ gm.at s a u e;
    }

  module _ {E A B : Type 0} {P : E → Type 0} where
    pub bind-Stops :
        (m : Exec E A) (f : A → Exec E B)
        → Stops view P m
        → GoesOn view m
        → ((a : A) → Stops view P (f a))
        → Stops view P (m >>= f)
    bind-Stops m f sm gm sf = record {
      at = λ s e t h. elim (bind-stop m f h) [
        | inl k ↦ sm.at s e t k
        | inr (a, u, k, l) ↦ let (p, q) = (sf a).at u e t l in (p, q ∙ gm.at s a u k)
      ];
    }

    -- If the rest cannot stop, only the first action does.
    pub bind-Stops_last :
        (m : Exec E A) (f : A → Exec E B)
        → Stops view P m
        → ((a : A) (s : State) (e : E) (t : State) → f a s ≡ (stop e, t) → ⊥)
        → Stops view P (m >>= f)
    bind-Stops_last m f sm sf = record {
      at = λ s e t h. elim (bind-stop m f h) [
        | inl k ↦ sm.at s e t k
        | inr (a, u, k, l) ↦ absurd (sf a u e t l)
      ];
    }

  module _ {E A : Type 0} where
    pub pure-GoesOn : (a : A) → GoesOn view (pure {E = E} a)
    pure-GoesOn a = record { at = λ s b t h. ap view (sym (value-injective h).1) }

    pub halt-GoesOn : (e : E) → GoesOn view (halt {A = A} e)
    halt-GoesOn e = record { at = λ s b t h. absurd (stop-ne-value h) }

    pub pure-Stops : {P : E → Type 0} (a : A) → Stops view P (pure a)
    pure-Stops a = record { at = λ s e t h. absurd (stop-ne-value (sym h)) }

    pub halt-Stops : {P : E → Type 0} (e : E) → P e → Stops view P (halt {A = A} e)
    halt-Stops {P} e p = record {
      at = λ s e' t h. let (q, r) = stop-injective h in (subst P q p, ap view (sym r));
    }

  module _ {A : Type 0} where
    pub obtain-GoesOn :
        (c : Call) (answer : History → Reply A)
        → ((s : State) → view (noted (succeeded c) s) ≡ view s)
        → GoesOn view (obtain c answer)
    obtain-GoesOn c answer same = record {
      at = λ s a t h. ap view (obtain-value c answer h).1 ∙ same s;
    }

    pub obtain-Stops :
        (c : Call) (answer : History → Reply A)
        → ((s : State) → view (noted (failed c) s) ≡ view s)
        → Stops view Any (obtain c answer)
    obtain-Stops c answer same = record {
      at = λ s e t h. (tt, ap view (obtain-stop c answer h) ∙ same s);
    }

    pub lift-GoesOn : (r : Reply A) → GoesOn view (lift r)
    unfolding lift
    lift-GoesOn (given a) = pure-GoesOn a
    lift-GoesOn (refused m) = halt-GoesOn m

    pub lift-Stops : (r : Reply A) → Stops view Any (lift r)
    unfolding lift
    lift-Stops (given a) = pure-Stops a
    lift-Stops (refused m) = halt-Stops m tt

  module _ {E R A : Type 0} where
    pub on_error-GoesOn : (g : E → R) (m : Exec E A) → GoesOn view m → GoesOn view (on_error g m)
    on_error-GoesOn g m gm = record { at = λ s a t h. gm.at s a t (on_error-value g m h) }

    pub on_error-Stops :
        {P : R → Type 0} {Q : E → Type 0} (g : E → R) (m : Exec E A)
        → ((e : E) → P (g e))
        → Stops view Q m
        → Stops view P (on_error g m)
    on_error-Stops {P} g m all sm = record {
      at = λ s r t h.
          let (e, k, q) = on_error-stop g m h in (subst P (sym q) (all e), (sm.at s e t k).1);
    }
