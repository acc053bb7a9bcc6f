-- ===== src/Service/Kept/Creation.antt =====
-- The handlers that create a run keep the messages backed.
use runner_controller_micros.Base.{◌≡◌, refl, sym, subst, ap, ◌∙◌, String, none, some}
use mathlib.Core.List.{Mem, mem-cons_self}
use runner_controller_micros.Base.Outcome.{Outcome, ok}
use runner_controller_micros.Service.World.{
  History, given, Fields, Response, Data, Env, Request, State, Kind,
}
use runner_controller_micros.Service.Exec.{Step, value, stop, crash, continue, ◌>>=◌}
use runner_controller_micros.Service.Exec.Runs.{on_error-value}
use runner_controller_micros.Service.Stages.{lift-value}
use runner_controller_micros.Service.Exec.Silent.{
  Silent, pure-Silent, bind-Silent, on_error-Silent, lift-Silent, lift_outcome-Silent,
}
use runner_controller_micros.Service.Calls.Silent.{auth-Silent, body-Silent}
use runner_controller_micros.Service.Effects.{World, world}
use runner_controller_micros.Service.Progress.{
  Prepared, prepare-value, cleared, register_run-value, store-value, clear-value, object_name,
}
use runner_controller_micros.Service.Created.{final_program, final_request}
use runner_controller_micros.Service.Create.{
  Submission, row, register_run, coded, prepare, store, report, submit, create,
}
use runner_controller_micros.Service.Backing.{Meaning, Backed, Stored}
use runner_controller_micros.Service.Kept.{
  Keeps, Anywhere, Silent-Keeps, bind-Keeps, weaken-Keeps, on_error-Keeps,
}
use runner_controller_micros.Service.Kept.Parts.{
  enqueue-Keeps, register_run-Keeps, store-Keeps, clear-Keeps,
}

module _ (env : Env) (K : Kind env.Value) where
  coded-Silent : (p : Outcome String × K.Req) → Silent (coded env K p)
  coded-Silent (r, q) = bind-Silent _ _ (lift_outcome-Silent r) (λ text. pure-Silent (text, q))

  pub prepare-Silent : (req : Request env.Value) → Silent (prepare env K req)
  unfolding prepare
  prepare-Silent req = bind-Silent _ _ (on_error-Silent _ _ (auth-Silent env req.token)) λ u.
      bind-Silent _ _ (on_error-Silent _ _ (body-Silent env req)) λ d.
        bind-Silent _ _ (on_error-Silent _ _ (lift-Silent _))
          λ q. bind-Silent _ _ (on_error-Silent _ _ (coded-Silent _)) λ c. pure-Silent _

  pub report-Silent : (i : String) (d : Data env.Value) → Silent (report env K i d)
  unfolding report
  report-Silent i none = record { at = λ s. refl }
  report-Silent i (some m) = record { at = λ s. refl }

module _ (env : Env) (M : Meaning env) (K : Kind env.Value) (req : Request env.Value) where
  -- A submission of the request, whose text is the program that is meant.
  abbrev Submitted : Submission env K → Type 0
  Submitted sub = Prepared env K req sub × M req sub.1 sub.2

  -- The run is registered for the user of the submission.
  abbrev Registered : Submission env K → String → World → Type 0
  Registered sub i w =
      (h : History) × (env.new_run h (row env K sub.0 sub.3) ≡ given i)
      × Mem (row env K sub.0 sub.3) w.runs
      × Mem (i, sub.0.id, "write") w.accesses

  register-Registered :
      (sub : Submission env K) (s : State) (i : String) (t : State)
      → register_run env K sub.0 sub.3 s ≡ (value i, t)
      → Registered sub i (world t.trace)
  register-Registered sub s i t e =
      let (h, new, w) = register_run-value env K sub.0 sub.3 s i t e in
      subst (Registered sub i) (sym w) (h, new, mem-cons_self, mem-cons_self)

  store-Stored :
      (sub : Submission env K) (i input : String) (s : State) (a : Unit) (t : State)
      → Submitted sub
      → env.encode sub.1 ≡ given input
      → Registered sub i (world s.trace)
      → store env K i sub.2 input s ≡ (value a, t)
      → Stored env M i (world t.trace)
  store-Stored sub i input s a t (p, meant) encoded (h, new, recorded, owned) e =
      let w = store-value env K i sub.2 input s a t e in
      let stored_text = final_program i sub.2 input (world s.trace) in
      let stored_input = final_request i sub.2 input (world s.trace) in
      record {
        request = req;
        token = p.token;
        user = sub.0;
        content = sub.1;
        text = sub.2;
        input = input;
        row = row env K sub.0 sub.3;
        asked = p.asked;
        before_run = h;
        cookie = p.cookie;
        verdict = p.verdict;
        valid = p.valid;
        body = p.decoded;
        meant = meant;
        encoded = encoded;
        created_by = refl;
        new_run = new;
        recorded = subst (λ z. Mem (row env K sub.0 sub.3) z.runs) (sym w) recorded;
        owned = subst (λ z. Mem (i, sub.0.id, "write") z.accesses) (sym w) owned;
        program_stored = ap (λ z. z.objects "code" (object_name i "code" "py")) w ∙ stored_text;
        request_stored = ap (λ z. z.objects "code" (object_name i "input" "json")) w ∙ stored_input;
      }

  -- The removal of the files leaves the rest as it is.
  clear-Stored : (i : String) (w : World) → Stored env M i w → Stored env M i (cleared i w)
  clear-Stored i w s = record {
    request = s.request;
    token = s.token;
    user = s.user;
    content = s.content;
    text = s.text;
    input = s.input;
    row = s.row;
    asked = s.asked;
    before_run = s.before_run;
    cookie = s.cookie;
    verdict = s.verdict;
    valid = s.valid;
    body = s.body;
    meant = s.meant;
    encoded = s.encoded;
    created_by = s.created_by;
    new_run = s.new_run;
    recorded = s.recorded;
    owned = s.owned;
    program_stored = s.program_stored;
    request_stored = s.request_stored;
  }

  submit-Keeps : (sub : Submission env K) → Submitted sub → Keeps env M Anywhere (submit env K sub)
  unfolding submit
  submit-Keeps (user, content, text, q) submitted =
      let sub : Submission env K = (user, content, text, q) in
      bind-Keeps env M (Registered sub) _ _ (register_run-Keeps env M K user q)
        (λ s i t p e. register-Registered sub s i t e)
        λ i.
          bind-Keeps env M (λ input w. Registered sub i w × (env.encode content ≡ given input)) _ _
            (Silent-Keeps env M _ (on_error-Silent _ _ (lift-Silent _)))
            (λ s input t p e.
              let (encoded, w) = lift-value (env.encode content) s input t (on_error-value _ _ e) in
              (subst (λ z. Registered sub i (world z.trace)) (sym w) p, encoded))
            λ input.
              bind-Keeps env M (λ _. Stored env M i) _ _
                (weaken-Keeps env M _ (λ w p. tt) (store-Keeps env M K i text input))
                (λ s a t p e. store-Stored sub i input s a t submitted p.1 p.0 e)
                λ _.
                  bind-Keeps env M (λ _. Stored env M i) _ _
                    (weaken-Keeps env M _ (λ w p. tt) (clear-Keeps env M K i))
                    (λ s a t p e.
                      subst (Stored env M i) (sym (clear-value env K i s a t e))
                        (clear-Stored i (world s.trace) p))
                    λ _.
                      bind-Keeps env M (λ _. Anywhere) _ _
                        (on_error-Keeps env M _ _ (enqueue-Keeps env M i)) (λ s a t p e. tt)
                        λ _. Silent-Keeps env M _ (report-Silent env K i content)

  -- What is meant must be the program that `Code` gives for the decoded request.
  pub create-Backed :
      ((content : Data env.Value) (parsed : K.Req) (text : String)
        → K.from_json content ≡ given parsed
        → (K.code parsed).0 ≡ ok text
        → M req content text)
      → (s : State) → Backed env M (world s.trace)
      → Backed env M (world (create env K req s).1.trace)
  unfolding create ◌>>=◌
  create-Backed means s h = go (prepare env K req s) refl
    where
      go :
          (p : Step (Response (Fields env.Value)) (Submission env K) × State)
          → prepare env K req s ≡ p
          → Backed env M (world (continue p.0 (submit env K) p.1).1.trace)
      go (value sub, u) e =
          let (p, w) = prepare-value env K req s sub u e in
          (submit-Keeps sub (p, means sub.1 p.parsed sub.2 p.from_json (ap (λ z. z.0) p.code))).at u
            tt (subst (Backed env M) (sym w) h)
      go (stop x, u) e =
          subst (Backed env M)
            (sym (ap (λ r. world r.1.trace) (sym e) ∙ (prepare-Silent env K req).at s)) h
      go (crash, u) e =
          subst (Backed env M)
            (sym (ap (λ r. world r.1.trace) (sym e) ∙ (prepare-Silent env K req).at s)) h
