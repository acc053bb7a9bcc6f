-- ===== src/Service/Queue.antt =====
-- What `EnqueueRunRequest` of util/enqueue.go does when it returns, when it stops, and when it panics.
use runner_controller_micros.Base.{◌≡◌, refl, ap, ◌∙◌, ◌⊎◌, inl, inr, String, Option, ◌∷◌}
use runner_controller_micros.Service.World.{
  Call, dial_queue, open_channel, declare_queue, close_channel, close_connection, push, failed,
  History, given, Env, State,
}
use runner_controller_micros.Service.Exec.{value, stop, crash, event, noted}
use runner_controller_micros.Service.Exec.Runs.{bind-value, obtain-stop}
use runner_controller_micros.Service.Exec.Keeps.{Any, Stops, bind-Stops, lift-Stops, lift-GoesOn}
use runner_controller_micros.Service.Exec.Panics.{NoPanic, bind-panic, bind-NoPanic, lift-NoPanic}
use runner_controller_micros.Service.Calls.{
  answered, attempt, closing, queue, rabbitmq_address, publish, enqueue,
}
use runner_controller_micros.Service.Calls.Panics.{calm, perform_anyway-NoPanic}
use runner_controller_micros.Service.Effects.{World, apply, world}
use runner_controller_micros.Service.Stages.{attempt-value, lift-value, perform_anyway-world}
use runner_controller_micros.Service.Failures.{
  queued, attempt-GoesOn, attempt-Stops, perform_anyway-GoesOn, perform_anyway-Stops,
}
use runner_controller_micros.Service.Ends.{
  or_nil-value, or_nil-panic, deferred-step, event-world, deferred-Stops, or_nil-Stops,
  or_nil-GoesOn,
}

module _ (env : Env) where
  -- A panic comes right after a connection that failed, or after a channel that failed, with only the
  -- connection closed in between.
  abbrev pub Unreachable : History → Type 0
  Unreachable h =
      ((h' : History) × (h ≡ failed (dial_queue (rabbitmq_address env)) ∷ h'))
      ⊎ ((m : Option String) × (h' : History) × (h
            ≡ event close_connection m ∷ failed open_channel ∷ h'))

  attempt-stop :
      (c : Call) {s : State} {x : String} {t : State}
      → attempt env c s ≡ (stop x, t)
      → t ≡ noted (failed c) s
  attempt-stop c h = obtain-stop c (λ x. answered (env.perform x c)) h

  pub closing-world :
      (c : Call) (s : State)
      → ((w : World) → apply c w ≡ w)
      → world (closing env c s).trace ≡ world s.trace
  closing-world c s same = event-world c (env.perform s.trace c) s.trace same

  -- The message is at the head of the queue.
  publish-world :
      (run_id file_name extension : String) (s : State) (a : Unit) (t : State)
      → publish env run_id file_name extension s ≡ (value a, t)
      → (message : String) × (env.encode_message s.trace
            (record { run_id = run_id; file_name = file_name; extension = extension })
          ≡ given message)
        × (world t.trace ≡ apply (push (queue env) message) (world s.trace))
  unfolding publish
  publish-world run_id file_name extension s a t h =
      let (message, s1, e1, k1) = bind-value _ _ h in
      let (q0, q1) = lift-value _ s _ s1 e1 in
      let q2 = attempt-value env (push (queue env) message) k1 in (message, q0, rw (q2, q1) refl)

  pub enqueue-world :
      (run_id file_name extension : String) (s : State) (a : Unit) (t : State)
      → enqueue env run_id file_name extension s ≡ (value a, t)
      → (message : String) × (before : History) × (env.encode_message before
            (record { run_id = run_id; file_name = file_name; extension = extension })
          ≡ given message)
        × (world t.trace ≡ apply (push (queue env) message) (world s.trace))
  unfolding enqueue
  enqueue-world run_id file_name extension s a t h =
      let (_, s1, e1, k1) = bind-value _ _ h in
      let (u1, h1, t1) = deferred-step _ _ k1 in
      let (_, s2, e2, k2) = bind-value _ _ h1 in
      let (u2, h2, t2) = deferred-step _ _ k2 in
      let (_, s3, e3, k3) = bind-value _ _ h2 in
      let w1 = attempt-value env _ (or_nil-value _ e1) in
      let w2 = attempt-value env _ (or_nil-value _ e2) in
      let w3 = perform_anyway-world env (declare_queue "task_queue") (λ w. refl) s2 _ s3 e3 in
      let (message, encoded, w4) = publish-world run_id file_name extension s3 _ u2 k3 in
      (
        message,
        s3.trace,
        encoded,
        ap (λ z. world z.trace) t1
            ∙ closing-world close_connection u1 (λ w. refl)
            ∙ ap (λ z. world z.trace) t2
            ∙ closing-world close_channel u2 (λ w. refl)
            ∙ w4
            ∙ ap (apply (push (queue env) message))
                (w3 ∙ ap (λ z. world z.trace) w2 ∙ ap (λ z. world z.trace) w1),
      )

  publish-Stops : (i f e : String) → Stops queued Any (publish env i f e)
  unfolding publish
  publish-Stops i f e = record {
    at = λ s. (bind-Stops _ _ (lift-Stops _) (lift-GoesOn _) (λ message. attempt-Stops env _)).at s;
  }

  pub enqueue-Stops : (i f e : String) → Stops queued Any (enqueue env i f e)
  unfolding enqueue
  enqueue-Stops i f e =
      bind-Stops _ _ (or_nil-Stops _) (or_nil-GoesOn _ (attempt-GoesOn env _ (λ s. refl))) λ _.
        deferred-Stops _ _ (λ s. ap (λ w. w.queue) (closing-world close_connection s (λ w. refl)))
          (bind-Stops _ _ (or_nil-Stops _) (or_nil-GoesOn _ (attempt-GoesOn env _ (λ s. refl))) λ _.
            deferred-Stops _ _ (λ s. ap (λ w. w.queue) (closing-world close_channel s (λ w. refl)))
              (bind-Stops _ _ (perform_anyway-Stops env _) (perform_anyway-GoesOn env _ (λ w. refl))
                λ _. publish-Stops i f e))

  publish-NoPanic : (i f e : String) → NoPanic (publish env i f e)
  unfolding publish
  publish-NoPanic i f e = record {
    at = λ s t h. (bind-NoPanic _ _ (lift-NoPanic _) λ m. calm env _).at s t h;
  }

  -- `EnqueueRunRequest` panics only if RabbitMQ cannot be reached.
  pub enqueue-panic :
      (i f e : String) (s t : State) → enqueue env i f e s ≡ (crash, t) → Unreachable t.trace
  unfolding enqueue
  enqueue-panic i f e s t h = elim (bind-panic _ _ h) [
    | inl k ↦
        let (x, stopped) = or_nil-panic _ (calm env _) k in
        inl (s.trace, ap (λ z. z.trace) (attempt-stop _ stopped))
    | inr (_, s1, _, k1) ↦
        let (u1, h1, t1) = deferred-step _ _ k1 in
        elim (bind-panic _ _ h1) [
          | inl k ↦
              let (x, stopped) = or_nil-panic _ (calm env _) k in
              inr (
                env.perform u1.trace close_connection,
                s1.trace,
                ap (λ z. z.trace) t1
                    ∙ ap (λ h. event close_connection (env.perform u1.trace close_connection) ∷ h)
                        (ap (λ z. z.trace) (attempt-stop _ stopped)),
              )
          | inr (_, s2, _, k2) ↦
              let (u2, h2, _) = deferred-step _ _ k2 in
              absurd (
                (bind-NoPanic _ _ (perform_anyway-NoPanic env _) (λ _. publish-NoPanic i f e)).at s2
                  u2 h2)
        ]
  ]
