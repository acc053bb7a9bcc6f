-- ===== src/Server/Backed.antt =====
-- What stands behind the messages on the queue, whatever requests a process has served.
use runner_controller_micros.Base.{◌≡◌, refl, String, Option, none, some, List, [], ◌∷◌}
use runner_controller_micros.Base.Floats.{Floats}
use mathlib.Core.List.{Mem, mem-cons_self, mem-cons_of_mem}
use runner_controller_micros.Base.Outcome.{ok}
use runner_controller_micros.Ea.Config.{Ea}
use runner_controller_micros.Ea.Program as Ea_program
use runner_controller_micros.Ea.Decoding.{ea_from_json}
use runner_controller_micros.Pso.Config.{Pso}
use runner_controller_micros.Pso.Program as Pso_program
use runner_controller_micros.Pso.Decoding.{pso_from_json}
use runner_controller_micros.Gp.Config.{Gp}
use runner_controller_micros.Gp.Program as Gp_program
use runner_controller_micros.Gp.Decoding.{gp_from_json}
use runner_controller_micros.Ml.Config.{Eaml}
use runner_controller_micros.Ml.Program as Ml_program
use runner_controller_micros.Ml.Decoding.{ml_from_json}
use runner_controller_micros.Service.Requests.{viewed}
use runner_controller_micros.Json.Value.{Json}
use runner_controller_micros.Gp.Accept.{Order}
use runner_controller_micros.Service.World.{Data, given, Env, Request, State}
use runner_controller_micros.Service.Effects.{world}
use runner_controller_micros.Service.Kinds.{create_ea, create_pso, create_gp, create_ml}
use runner_controller_micros.Service.Backing.{Meaning, Backed}
use runner_controller_micros.Service.Kept.{Silent-Keeps, Anywhere}
use runner_controller_micros.Service.Kept.Creation.{create-Backed}
use runner_controller_micros.Runs.Effects.{
  get_run-Silent, get_runs-Silent, test-Silent, share-Keeps,
}
use runner_controller_micros.Server.Routes as Routes
use runner_controller_micros.Server.Routes.{Endpoint, Mux, find}
use runner_controller_micros.Server.Dispatch.{fresh, handle, to_handler, dispatch, serve_all}

module _ (F : Floats) (env : Env) (view : env.Value → Json F.Float) (order : State → Order) where
  -- The text is the program of the algorithm behind the endpoint, for the body of a request.
  abbrev pub IsProgram : Endpoint → Data env.Value → String → Type 0
  IsProgram Routes.create_ea d text =
      (ea : Ea F) × (ea_from_json F (viewed view d) ≡ given ea)
      × ((Ea_program.code F ea).0 ≡ ok text)
  IsProgram Routes.create_pso d text =
      (pso : Pso F) × (pso_from_json F (viewed view d) ≡ given pso)
      × (Pso_program.code F pso ≡ ok text)
  IsProgram Routes.create_gp d text =
      (gp : Gp F) × (s : State) × (gp_from_json F (viewed view d) ≡ given gp)
      × (Gp_program.code F (order s) gp ≡ ok text)
  IsProgram Routes.create_ml d text =
      (ml : Eaml F) × (ml_from_json F (viewed view d) ≡ given ml) × (Ml_program.code F ml ≡ ok text)
  IsProgram h d text = ⊥

  -- The request is one of those served, and the text the program of the algorithm at its address.
  abbrev pub IsRequested : Mux → List (String × Request env.Value) → Meaning env
  IsRequested m requests req d text =
      (path : String) × (h : Endpoint) × Mem (path, req) requests
      × (find m path ≡ some h)
      × IsProgram h d text

  module _ (M : Meaning env) where
    handle-Backed :
        (h : Endpoint) (req : Request env.Value) (s : State)
        → ((d : Data env.Value) (text : String) → IsProgram h d text → M req d text)
        → Backed env M (world s.trace)
        → Backed env M (world (handle F env view order h req s).trace)
    unfolding handle create_ea create_pso create_gp create_ml
    handle-Backed Routes.test req s means b =
        (Silent-Keeps env M {P = Anywhere} _ (test-Silent env req)).at s tt b
    handle-Backed Routes.create_ea req s means b =
        create-Backed env M _ req (λ d q text p c. means d text (q, p, c)) s b
    handle-Backed Routes.create_gp req s means b =
        create-Backed env M _ req (λ d q text p c. means d text (q, s, p, c)) s b
    handle-Backed Routes.create_ml req s means b =
        create-Backed env M _ req (λ d q text p c. means d text (q, p, c)) s b
    handle-Backed Routes.create_pso req s means b =
        create-Backed env M _ req (λ d q text p c. means d text (q, p, c)) s b
    handle-Backed Routes.user_runs req s means b =
        (Silent-Keeps env M {P = Anywhere} _ (get_runs-Silent env req)).at s tt b
    handle-Backed Routes.share_run req s means b = (share-Keeps env M _ req).at s tt b
    handle-Backed Routes.user_run req s means b =
        (Silent-Keeps env M {P = Anywhere} _ (get_run-Silent env _ req)).at s tt b
    handle-Backed Routes.logs req s means b = b

    to_handler-Backed :
        (o : Option Endpoint) (req : Request env.Value) (s : State)
        → ((h : Endpoint) (d : Data env.Value) (text : String)
            → o ≡ some h
            → IsProgram h d text
            → M req d text)
        → Backed env M (world s.trace)
        → Backed env M (world (to_handler F env view order o req s).trace)
    unfolding to_handler
    to_handler-Backed none req s means b = b
    to_handler-Backed (some h) req s means b =
        handle-Backed h req s (λ d text. means h d text refl) b

  module _ (m : Mux) (requests : List (String × Request env.Value)) where
    abbrev M : Meaning env
    M = IsRequested m requests

    serve_all-Keeps :
        (rest : List (String × Request env.Value)) (s : State)
        → ((e : String × Request env.Value) → Mem e rest → Mem e requests)
        → Backed env M (world s.trace)
        → Backed env M (world (serve_all F env view order m rest s).trace)
    unfolding serve_all dispatch
    serve_all-Keeps [] s served b = b
    serve_all-Keeps ((path, req) ∷ rest) s served b =
        serve_all-Keeps rest (dispatch F env view order m path req s)
          (λ e i. served e (mem-cons_of_mem (path, req) i))
          (to_handler-Backed M (find m path) req s
            (λ h d text found p. (path, h, served (path, req) mem-cons_self, found, p)) b)

    -- Whatever requests a process has served, and however they ended, also by an error or a panic,
    -- each message that it has put on its queue was encoded for a run of which, when the message was
    -- put there, all this held. The run is of one of the requests, whose user the auth service had
    -- found valid for its cookie. Its row names this user, and so does an access for writing. The
    -- object store has, under the id of the run, the program that the algorithm at the address of
    -- the request gives for its body, and the body.
    pub serve_all-Backed : Backed env M (world (serve_all F env view order m requests fresh).trace)
    serve_all-Backed = serve_all-Keeps requests fresh (λ e i. i) tt
