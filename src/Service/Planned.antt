-- ===== src/Service/Planned.antt =====
-- The parts of a creation do a first part of their calls, and nothing else, however they end.
pub mod Creation
use runner_controller_micros.Base.{
  ◌≡◌, refl, sym, subst, ap, ◌∙◌, ◌⊎◌, inl, inr, String, ◌<>◌, List, [], ◌∷◌, ◌++◌,
}
use runner_controller_micros.Service.World.{
  Call, insert_run, insert_access, write_file, remove_file, put_object, push, close_channel,
  close_connection, Verdict, Data, Env, Request, State, Kind,
}
use runner_controller_micros.Service.Exec.{
  Step, value, stop, crash, Exec, continue, ◌>>=◌, deferred,
}
use runner_controller_micros.Service.Exec.Silent.{
  Silent, pure-Silent, on_error-Silent, lift-Silent, or_nil-Silent,
}
use runner_controller_micros.Service.Calls.{
  answered, attempt, closing, queue, upload_file, publish, enqueue,
}
use runner_controller_micros.Service.Calls.Silent.{
  pool_conn-Silent, attempt-Silent, perform_anyway-Silent, ensure_bucket-Silent,
}
use runner_controller_micros.Service.Effects.{World, apply, world}
use runner_controller_micros.Service.Queue.{closing-world}
use runner_controller_micros.Service.Progress.{upload_path, register_run-value, object_name}
use runner_controller_micros.Service.Create.{
  Submission, row, code_path, input_path, prepare, register_run, store, clear, report, submit,
  create,
}
use runner_controller_micros.Service.Kept.Creation.{prepare-Silent, report-Silent}
use runner_controller_micros.Service.Plan.{
  carry, plan, Front, whole-Front, Front-more, Front-after, Does, Silent-Does, bind-Does,
  on_error-Does, obtain-Does,
}

-- What holds after the first action, and then after the rest, holds after both.
pub follow :
    {E A B : Type 0} (P : World → Type 0) (m : Exec E A) (f : A → Exec E B) (s : State)
    → P (world (m s).1.trace)
    → ((a : A) (t : State) → m s ≡ (value a, t) → P (world (f a t).1.trace))
    → P (world ((m >>= f) s).1.trace)
unfolding ◌>>=◌
follow {E} {A} P m f s first rest = go (m s).0 (λ a e. rest a (m s).1 (ap (λ r. (r, (m s).1)) e))
  where
    go :
        (r : Step E A)
        → ((a : A) → r ≡ value a → P (world (f a (m s).1).1.trace))
        → P (world (continue r f (m s).1).1.trace)
    go (value a) next = next a refl
    go (stop x) next = first
    go crash next = first

-- An action without an effect.
pub pass :
    {E A : Type 0} (P : World → Type 0) (m : Exec E A)
    → Silent m
    → (s : State) → P (world s.trace)
    → P (world (m s).1.trace)
pass P m sm s p = subst P (sym (sm.at s)) p

pub pass_value :
    {E A : Type 0} (P : World → Type 0) (m : Exec E A)
    → Silent m
    → {s : State} {a : A} {t : State} → m s ≡ (value a, t)
    → P (world s.trace)
    → P (world t.trace)
pass_value P m sm {s} e p = subst (λ r. P (world r.1.trace)) e (pass P m sm s p)

module _ (env : Env) where
  upload_file-Does :
      (i f e : String)
      → Does
          (put_object "code" (object_name i f e) (f <> ("/" <> (i <> ("." <> e)))) ∷ [])
          (upload_file env i f e)
  unfolding upload_file
  upload_file-Does i f e =
      bind-Does [] _ _ _ (Silent-Does _ (attempt-Silent env _ (λ w. refl))) λ _.
        bind-Does [] _ _ _ (Silent-Does _ (ensure_bucket-Silent env _)) λ _.
          bind-Does [] _ _ _ (Silent-Does _ (attempt-Silent env _ (λ w. refl))) λ _. obtain-Does _ _

  attempt-Does : (c : Call) → Does (c ∷ []) (attempt env c)
  attempt-Does c = obtain-Does c (λ h. answered (env.perform h c))

  closed :
      {E A : Type 0} (P : World → Type 0) (c : Call)
      → ((w : World) → apply c w ≡ w)
      → (m : Exec E A) (s : State) → P (world (m s).1.trace)
      → P (world (deferred (closing env c) m s).1.trace)
  unfolding deferred
  closed P c same m s p = subst P (sym (closing-world env c (m s).1 same)) p

  -- What may have been pushed.
  abbrev pub Pushed : World → World → Type 0
  Pushed v w = (message : String) × Front (push (queue env) message ∷ []) v w

  nothing-Pushed : {v w : World} → w ≡ v → Pushed v w
  unfolding carry
  nothing-Pushed e = ("", record { made = []; left = _; split = refl; comes = e })

  pub enqueue-Pushed :
      (i f e : String) (s : State) → Pushed (world s.trace) (world (enqueue env i f e s).1.trace)
  unfolding enqueue publish carry
  enqueue-Pushed i f e s =
      let P = Pushed (world s.trace) in
      let Same : World → Type 0 = λ w. w ≡ world s.trace in
      let dialled = or_nil-Silent _ (attempt-Silent env _ (λ w. refl)) in
      let opened = or_nil-Silent _ (attempt-Silent env _ (λ w. refl)) in
      let declared = perform_anyway-Silent env _ (λ w. refl) in
      follow P _ _ s (nothing-Pushed (pass Same _ dialled s refl)) λ _ s1 e1.
        let w1 = pass_value Same _ dialled e1 refl in
        closed P close_connection (λ w. refl) _ s1
          (follow P _ _ s1 (nothing-Pushed (pass Same _ opened s1 w1)) λ _ s2 e2.
            let w2 = pass_value Same _ opened e2 w1 in
            closed P close_channel (λ w. refl) _ s2
              (follow P _ _ s2 (nothing-Pushed (pass Same _ declared s2 w2)) λ _ s3 e3.
                let w3 = pass_value Same _ declared e3 w2 in
                follow P _ _ s3 (nothing-Pushed (pass Same _ (lift-Silent _) s3 w3)) λ m s4 e4.
                  let w4 = pass_value Same _ (lift-Silent _) e4 w3 in
                  (
                    m,
                    Front-after [] _ {u = world s.trace} w4
                        ((attempt-Does (push (queue env) m)).at s4),
                  )))

  module _ (K : Kind env.Value) where
    abbrev pub store_calls : String → String → String → List Call
    store_calls i text input =
        write_file (code_path i) text
        ∷ put_object "code" (object_name i "code" "py") (code_path i)
        ∷ write_file (input_path i) input
        ∷ put_object "code" (object_name i "input" "json") (input_path i)
        ∷ []

    pub store-Does :
        (i text input : String) → Does (store_calls i text input) (store env K i text input)
    unfolding store
    store-Does i text input =
        rw (sym (upload_path "code" i "py"), sym (upload_path "input" i "json"))
          (bind-Does [] _ _ _
            (Silent-Does _ (on_error-Silent _ _ (perform_anyway-Silent env _ (λ w. refl))))
            λ _. bind-Does (_ ∷ []) _ _ _ (on_error-Does _ _ _ (obtain-Does _ _)) λ _.
              bind-Does (_ ∷ []) _ _ _ (on_error-Does _ _ _ (upload_file-Does i "code" "py")) λ _.
                bind-Does [] _ _ _
                  (Silent-Does _ (on_error-Silent _ _ (perform_anyway-Silent env _ (λ w. refl))))
                  λ _.
                    bind-Does (_ ∷ []) _ _ _ (on_error-Does _ _ _ (obtain-Does _ _))
                      λ _. on_error-Does _ _ _ (upload_file-Does i "input" "json"))

    pub clear-Does :
        (i : String)
        → Does (remove_file (code_path i) ∷ remove_file (input_path i) ∷ []) (clear env K i)
    unfolding clear
    clear-Does i =
        bind-Does (_ ∷ []) _ _ _ (on_error-Does _ _ _ (obtain-Does _ _))
          λ _. on_error-Does _ _ _ (obtain-Does _ _)

    abbrev pub register_calls : Verdict → K.Req → String → List Call
    register_calls user q i = insert_run (row env K user q) ∷ insert_access i user.id "write" ∷ []

    pub register_run-Front :
        (user : Verdict) (q : K.Req) (s : State)
        → (i : String) × Front
            (register_calls user q i)
            (world s.trace)
            (world (register_run env K user q s).1.trace)
    unfolding register_run carry
    register_run-Front user q s =
        let v = world s.trace in
        let P : World → Type 0 = λ w. (i : String) × Front (register_calls user q i) v w in
        let connected = on_error-Silent _ _ (pool_conn-Silent env) in
        let nothing : (w : World) → w ≡ v → P w =
          λ w e. ("", record { made = []; left = _; split = refl; comes = e }) in
        follow P _ _ s (nothing _ (pass (λ w. w ≡ v) _ connected s refl)) λ _ s1 e1.
          let w1 = pass_value (λ w. w ≡ v) _ connected e1 refl in
          let inserted = on_error-Does _ _ _ (obtain-Does _ _) in
          follow P _ _ s1
            (
              "",
              Front-more (insert_run (row env K user q) ∷ []) _
                  (Front-after [] _ {u = v} w1 (inserted.at s1)),
            )
            λ i s2 e2.
              let w2 =
                inserted.full s1 i s2 e2 ∙ ap (carry (insert_run (row env K user q) ∷ [])) w1 in
              let granted = on_error-Does _ _ _ (obtain-Does _ _) in
              follow P _ _ s2
                (i, Front-after (insert_run (row env K user q) ∷ []) _ {u = v} w2 (granted.at s2))
                λ _ s3 e3. (
                  i,
                  whole-Front (register_calls user q i) (
                      granted.full s2 _ s3 e3
                      ∙ ap (carry (insert_access i user.id "write" ∷ [])) w2),
                )
