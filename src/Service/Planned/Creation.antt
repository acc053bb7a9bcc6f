-- ===== src/Service/Planned/Creation.antt =====
-- A creation does a first part of its plan, and nothing else, however it ends.
use runner_controller_micros.Base.{
  ◌≡◌, refl, sym, subst, ap, ◌∙◌, ◌⊎◌, inl, inr, String, List, [], ◌∷◌, ◌++◌, All,
}
use mathlib.Core.List.{reverse}
use runner_controller_micros.Service.World.{
  Call, Fields, Response, remove_file, push, Env, Request, State, Kind,
}
use runner_controller_micros.Service.Exec.{Step, value, stop, crash, ◌>>=◌, continue, on_error}
use runner_controller_micros.Service.Exec.Silent.{on_error-Silent, lift-Silent}
use runner_controller_micros.Service.Calls.{queue, enqueue}
use runner_controller_micros.Service.Effects.{World, world}
use runner_controller_micros.Service.Progress.{register_run-value}
use runner_controller_micros.Service.Create.{
  Submission, code_path, input_path, prepare, submit, create, report, store, clear,
}
use runner_controller_micros.Service.Kept.Creation.{prepare-Silent, report-Silent}
use runner_controller_micros.Service.Plan.{
  carry, plan, Front, whole-Front, Front-more, Front-after, Effective, carry-calls, All-front,
}
use runner_controller_micros.Service.Replies.{or_reply}
use runner_controller_micros.Service.Planned.{
  register_calls, store_calls, follow, pass, pass_value, register_run-Front, store-Does, clear-Does,
  enqueue-Pushed,
}

module _ (env : Env) (K : Kind env.Value) where
  -- From the world `v`, a first part of the plan, for some id, request and message.
  pub record Planned (sub : Submission env K) (v w : World) : Type 0 where
    pub run_id : String
    pub input : String
    pub message : String
    pub front : Front (plan env K sub run_id input message) v w

  abbrev clear_calls : String → List Call
  clear_calls i = remove_file (code_path i) ∷ remove_file (input_path i) ∷ []

  module _ (sub : Submission env K) (v : World) (i input : String) where
    abbrev register_part : List Call
    register_part = register_calls env K sub.0 sub.3 i

    abbrev store_part : List Call
    store_part = store_calls env K i sub.2 input

    -- From the files on.
    finish-Planned :
        (s : State)
        → world s.trace ≡ carry (register_part ++ store_part) v
        → Planned sub v (
            world
              ((clear env K i >>= λ _.
                  or_reply 500 (enqueue env i "code" "py") >>= λ _. report env K i sub.1)
                s).1.trace)
    unfolding carry plan on_error
    finish-Planned s w =
        let P = Planned sub v in
        let cleared = clear-Does env K i in
        follow P _ _ s
          (record {
            run_id = i;
            input = input;
            message = "";
            front =
                Front-after (register_part ++ store_part) _ {u = v} w
                  (Front-more (clear_calls i) _ (cleared.at s));
          })
          λ a t e.
            let (message, pushed) = enqueue-Pushed env i "code" "py" t in
            let p : P (world (enqueue env i "code" "py" t).1.trace) = record {
              run_id = i;
              input = input;
              message = message;
              front =
                  Front-after (register_part ++ (store_part ++ clear_calls i))
                    (push (queue env) message ∷ []) {u = v}
                    (cleared.full s a t e ∙ ap (carry (clear_calls i)) w) pushed;
            } in
            follow P _ _ t p λ b u k.
              pass P _ (report-Silent env K i sub.1) u (subst (λ r. P (world r.1.trace)) k p)

    -- From the text of the request on.
    store-Planned :
        (s : State)
        → world s.trace ≡ carry register_part v
        → Planned sub v (
            world
              ((store env K i sub.2 input >>= λ _. clear env K i >>= λ _.
                  or_reply 500 (enqueue env i "code" "py") >>= λ _. report env K i sub.1)
                s).1.trace)
    unfolding carry plan
    store-Planned s w =
        let stored = store-Does env K i sub.2 input in
        follow (Planned sub v) _ _ s
          (record {
            run_id = i;
            input = input;
            message = "";
            front = Front-after register_part _ {u = v} w (Front-more store_part _ (stored.at s));
          })
          λ a t e. finish-Planned t (stored.full s a t e ∙ ap (carry store_part) w)

  submit-Planned :
      (sub : Submission env K) (s : State)
      → Planned sub (world s.trace) (world (submit env K sub s).1.trace)
  unfolding submit carry plan
  submit-Planned (user, content, text, q) s =
      let v = world s.trace in
      let sub : Submission env K = (user, content, text, q) in
      let P = Planned sub v in
      let (i0, front) = register_run-Front env K user q s in
      follow P _ _ s
        (record {
          run_id = i0;
          input = "";
          message = "";
          front = Front-more (register_calls env K user q i0) _ front;
        })
        λ i s1 e1.
          let (_, _, w) = register_run-value env K user q s i s1 e1 in
          let reg : List Call = register_calls env K user q i in
          let encoded = on_error-Silent _ _ (lift-Silent _) in
          let p : P (world s1.trace) = record {
            run_id = i;
            input = "";
            message = "";
            front = Front-more reg _ (whole-Front reg w);
          } in
          follow P _ _ s1 (pass P _ encoded s1 p) λ input s2 e2.
            store-Planned sub v i input s2 (pass_value (λ z. z ≡ carry reg v) _ encoded e2 w)

  -- The calls of the plan have an effect.
  plan-Effective :
      (sub : Submission env K) (i input message : String)
      → All Effective (plan env K sub i input message)
  unfolding plan
  plan-Effective (user, content, text, q) i input message = (
    (λ w. refl),
    (
      (λ w. refl),
      (
        (λ w. refl),
        (
          (λ w. refl),
          ((λ w. refl), ((λ w. refl), ((λ w. refl), ((λ w. refl), ((λ w. refl), tt))))),
        ),
      ),
    ),
  )

  -- What has been done since the world `v`: of all the calls that have an effect, a first part of the
  -- plan, in its order, and no other, so none that undoes one.
  abbrev pub DoneSince : Submission env K → World → World → Type 0
  DoneSince sub v w =
      (run_id : String) × (input : String) × (message : String) × (made : List Call) × (left : List
        Call)
      × (plan env K sub run_id input message ≡ made ++ left)
      × (w ≡ carry made v)
      × (w.calls ≡ reverse made ++ v.calls)

  Planned-DoneSince : (sub : Submission env K) (v w : World) → Planned sub v w → DoneSince sub v w
  Planned-DoneSince sub v w p =
      let effective =
        All-front p.front.made p.front.left
          (subst (All Effective) p.front.split (plan-Effective sub p.run_id p.input p.message)) in
      (
        p.run_id,
        p.input,
        p.message,
        p.front.made,
        p.front.left,
        p.front.split,
        p.front.comes,
        ap (λ z. z.calls) p.front.comes ∙ carry-calls p.front.made v effective,
      )

  -- However a creation ends, also by a panic, it has done nothing, or a first part of its plan, in its
  -- order: the row of the run, the access of its owner, the program and the request, each written to a
  -- file and sent from there, the removal of both files, and the message. Of all the calls that have
  -- an effect it has made no other than those, so none that would undo one.
  pub create-Planned :
      (req : Request env.Value) (s : State)
      → (world (create env K req s).1.trace ≡ world s.trace)
        ⊎ ((sub : Submission env K) × (u : State) × (prepare env K req s ≡ (value sub, u))
            × DoneSince sub (world s.trace) (world (create env K req s).1.trace))
  unfolding create ◌>>=◌
  create-Planned req s = go (prepare env K req s) refl
    where
      go :
          (p : Step (Response (Fields env.Value)) (Submission env K) × State)
          → prepare env K req s ≡ p
          → (world (continue p.0 (submit env K) p.1).1.trace ≡ world s.trace)
            ⊎ ((sub : Submission env K) × (u : State) × (p ≡ (value sub, u))
                × DoneSince sub (world s.trace) (world (continue p.0 (submit env K) p.1).1.trace))
      go (value sub, u) e =
          let same = pass_value (λ w. w ≡ world s.trace) _ (prepare-Silent env K req) e refl in
          inr (
            sub,
            u,
            refl,
            Planned-DoneSince sub (world s.trace) (world (submit env K sub u).1.trace) (
                subst (λ v. Planned sub v (world (submit env K sub u).1.trace)) same
                  (submit-Planned sub u)),
          )
      go (stop x, u) e = inl (ap (λ r. world r.1.trace) (sym e) ∙ (prepare-Silent env K req).at s)
      go (crash, u) e = inl (ap (λ r. world r.1.trace) (sym e) ∙ (prepare-Silent env K req).at s)
