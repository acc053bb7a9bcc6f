-- ===== src/Service/Kept/Parts.antt =====
-- The parts of the handlers that create a run keep the messages backed, however they end.
use runner_controller_micros.Base.{◌≡◌, refl, sym, subst, ap, ◌∙◌, String}
use runner_controller_micros.Service.World.{
  push, close_channel, close_connection, given, Verdict, Env, Kind,
}
use runner_controller_micros.Service.Exec.{Exec, ◌>>=◌}
use runner_controller_micros.Service.Exec.Silent.{
  Silent, pure-Silent, on_error-Silent, lift-Silent, or_nil-Silent,
}
use runner_controller_micros.Service.Calls.{queue, upload_file, publish, enqueue}
use runner_controller_micros.Service.Calls.Silent.{
  pool_conn-Silent, attempt-Silent, perform_anyway-Silent, ensure_bucket-Silent,
}
use runner_controller_micros.Service.Effects.{World, world}
use runner_controller_micros.Service.Stages.{lift-value}
use runner_controller_micros.Service.Queue.{closing-world}
use runner_controller_micros.Service.Create.{register_run, store, clear}
use runner_controller_micros.Service.Backing.{Meaning, Stored}
use runner_controller_micros.Service.Kept.{
  Keeps, Anywhere, Silent-Keeps, bind-Keeps, on_error-Keeps, deferred-Keeps, obtain-Keeps,
}

module _ (env : Env) (M : Meaning env) where
  -- An action without an effect leaves the condition as it is.
  pub Silent-then :
      {E A B : Type 0} {P : World → Type 0} (m : Exec E A) (f : A → Exec E B)
      → Silent m
      → ((a : A) → Keeps env M P (f a))
      → Keeps env M P (m >>= f)
  Silent-then {P = P} m f sm kf =
      bind-Keeps env M (λ _. P) m f (Silent-Keeps env M m sm)
        (λ s a t p e. subst P (sym (ap (λ r. world r.1.trace) (sym e) ∙ sm.at s)) p) kf

  upload_file-Keeps : (i f e : String) → Keeps env M Anywhere (upload_file env i f e)
  unfolding upload_file
  upload_file-Keeps i f e = Silent-then _ _ (attempt-Silent env _ (λ w. refl)) λ _.
      Silent-then _ _ (ensure_bucket-Silent env _) λ _.
        Silent-then _ _ (attempt-Silent env _ (λ w. refl)) λ _. obtain-Keeps env M _ _ (λ w p. tt)

  publish-Keeps : (i : String) → Keeps env M (Stored env M i) (publish env i "code" "py")
  unfolding publish
  publish-Keeps i = record {
    at = λ s.
        (bind-Keeps env M {P = Stored env M i}
            (λ m w.
              Stored env M i w
              × (env.encode_message s.trace
                    (record { run_id = i; file_name = "code"; extension = "py" })
                  ≡ given m))
            _ _ (Silent-Keeps env M _ (lift-Silent _))
            (λ s1 m t p e.
              let (q, same) = lift-value _ s1 m t e in
              (subst (λ z. Stored env M i (world z.trace)) (sym same) p, q))
            (λ m. obtain-Keeps env M (push (queue env) m) _ (λ w p. record {
              run_id = i;
              before_message = s.trace;
              on_queue = refl;
              encoded = p.1;
              stored = p.0;
            }))).at
          s;
  }

  pub enqueue-Keeps : (i : String) → Keeps env M (Stored env M i) (enqueue env i "code" "py")
  unfolding enqueue
  enqueue-Keeps i = Silent-then _ _ (or_nil-Silent _ (attempt-Silent env _ (λ w. refl))) λ _.
      deferred-Keeps env M _ _ (λ s. closing-world env close_connection s (λ w. refl))
        (Silent-then _ _ (or_nil-Silent _ (attempt-Silent env _ (λ w. refl))) λ _.
          deferred-Keeps env M _ _ (λ s. closing-world env close_channel s (λ w. refl))
            (Silent-then _ _ (perform_anyway-Silent env _ (λ w. refl)) (λ _. publish-Keeps i)))

  module _ (K : Kind env.Value) where
    pub register_run-Keeps :
        (user : Verdict) (q : K.Req) → Keeps env M Anywhere (register_run env K user q)
    unfolding register_run
    register_run-Keeps user q = Silent-then _ _ (on_error-Silent _ _ (pool_conn-Silent env)) λ _.
        bind-Keeps env M (λ _. Anywhere) _ _
          (on_error-Keeps env M _ _ (obtain-Keeps env M _ _ (λ w p. tt))) (λ s a t p e. tt)
          λ i.
            bind-Keeps env M (λ _. Anywhere) _ _
              (on_error-Keeps env M _ _ (obtain-Keeps env M _ _ (λ w p. tt))) (λ s a t p e. tt)
              λ _. Silent-Keeps env M _ (pure-Silent i)

    -- One action after another, of which no rest needs anything.
    then-Keeps :
        {E A B : Type 0} (m : Exec E A) (f : A → Exec E B)
        → Keeps env M Anywhere m
        → ((a : A) → Keeps env M Anywhere (f a))
        → Keeps env M Anywhere (m >>= f)
    then-Keeps m f km kf = bind-Keeps env M (λ _. Anywhere) m f km (λ s a t p e. tt) kf

    pub store-Keeps : (i text input : String) → Keeps env M Anywhere (store env K i text input)
    unfolding store
    store-Keeps i text input =
        Silent-then _ _ (on_error-Silent _ _ (perform_anyway-Silent env _ (λ w. refl))) λ _.
          then-Keeps _ _ (on_error-Keeps env M _ _ (obtain-Keeps env M _ _ (λ w p. tt))) λ _.
            then-Keeps _ _ (on_error-Keeps env M _ _ (upload_file-Keeps i "code" "py")) λ _.
              Silent-then _ _ (on_error-Silent _ _ (perform_anyway-Silent env _ (λ w. refl))) λ _.
                then-Keeps _ _ (on_error-Keeps env M _ _ (obtain-Keeps env M _ _ (λ w p. tt)))
                  λ _. on_error-Keeps env M _ _ (upload_file-Keeps i "input" "json")

    pub clear-Keeps : (i : String) → Keeps env M Anywhere (clear env K i)
    unfolding clear
    clear-Keeps i =
        then-Keeps _ _ (on_error-Keeps env M _ _ (obtain-Keeps env M _ _ (λ w p. tt)))
          λ _. on_error-Keeps env M _ _ (obtain-Keeps env M _ _ (λ w p. tt))
