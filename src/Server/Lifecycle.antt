-- ===== src/Server/Lifecycle.antt =====
-- The life of the process of main.go.
use mathlib.Core.Bool.{false≢true}
use runner_controller_micros.Base.{
  ℕ, ◌≡◌, refl, sym, ◌∙◌, ◌⊎◌, inl, inr, String, ◌<>◌, ◌==◌, true, false, Bool-cases, eq_iff,
  Option, none, some, List, [], ◌∷◌, ◌++◌,
}
use runner_controller_micros.Service.World.{Reply, given, refused}
use runner_controller_micros.Logger.Levels.{Logger, init_logger, development, production}
use runner_controller_micros.Server.Settings.{port, frontend_url, redis_url}
use runner_controller_micros.Server.Routes.{Mux, mux}
use runner_controller_micros.Server.Redis.{connect, connect_to, pinged}
use runner_controller_micros.Server.Process.{
  listen, stop_server, Event, close_client, exited, panicked, World, with_logger, connected,
  serve_until_done, close_clients, main,
}
use runner_controller_micros.Server.Endpoints.{table, mux-table}

abbrev IsEnvironment : String → Type 0
IsEnvironment env = (env ≡ "") ⊎ (env ≡ development) ⊎ (env ≡ production)

-- The address in the URL answers a ping, of the given number.
abbrev IsReached : World → ℕ → String → Type 0
IsReached w time url =
    (addr : String) × (w.redis.parse_url url ≡ given addr) × (w.redis.ping time addr ≡ none)

-- The URL cannot be read, or its address does not answer.
abbrev IsLost : World → ℕ → String → Type 0
IsLost w time url =
    ((e : String) × (w.redis.parse_url url ≡ refused e))
    ⊎ ((addr : String) × (e : String) × (w.redis.parse_url url ≡ given addr)
        × (w.redis.ping time addr ≡ some e))

-- What the process has done by the time at which it is told to stop.
abbrev served : World → Mux → List Event
served w m = listen (port w.getenv) (frontend_url w.getenv) m true ∷ stop_server w.shut_down ∷ []

abbrev pub Ends : World → Type 0
Ends w =
    let url = redis_url w.getenv in
    (m : Mux) × (mux ≡ some m)
    × ((¬ (IsEnvironment (w.getenv "ENV")) × (main w ≡ ([], panicked)))
        ⊎ (IsEnvironment (w.getenv "ENV") × IsLost w 1 url × (main w ≡ ([], exited 1)))
        ⊎ (IsEnvironment (w.getenv "ENV")
            × IsReached w 1 url
            × IsLost w 0 url
            × (main w ≡ (served w m, panicked)))
        ⊎ (IsEnvironment (w.getenv "ENV")
            × IsReached w 1 url
            × IsReached w 0 url
            × (main w ≡ (
              served w m ++ (close_client (w.redis.close 0) ∷ close_client (w.redis.close 1) ∷ []),
              exited 0,
            ))))

init_logger-cases :
    (env : String)
    → (IsEnvironment env × (l : Logger) × (init_logger env ≡ given l))
      ⊎ ((IsEnvironment env → ⊥) × (e : String) × (init_logger env ≡ refused e))
unfolding init_logger
init_logger-cases env = elim (Bool-cases (env == "")) [
  | inl a ↦ inl (inl ((eq_iff env "").0 a), record { env = development }, rw a refl)
  | inr a ↦ elim (Bool-cases (env == development)) [
    | inl b ↦ inl (inr (inl ((eq_iff env development).0 b)), record { env = env }, rw (a, b) refl)
    | inr b ↦ elim (Bool-cases (env == production)) [
      | inl c ↦
          inl (inr (inr ((eq_iff env production).0 c)), record { env = env }, rw (a, b, c) refl)
      | inr c ↦
          inr (unknown a b c, "invalid environment for logger setup: " <> env, rw (a, b, c) refl)
    ]
  ]
]
  where
    differs : (s t : String) → (s == t) ≡ false → s ≡ t → ⊥
    differs s t e same = false≢true (sym e ∙ (eq_iff s t).1 same)

    unknown :
        (env == "") ≡ false
        → (env == development) ≡ false
        → (env == production) ≡ false
        → IsEnvironment env
        → ⊥
    unknown a b c (inl e) = differs env "" a e
    unknown a b c (inr (inl e)) = differs env development b e
    unknown a b c (inr (inr e)) = differs env production c e

connect-cases :
    (w : World) (time : ℕ) (url : String)
    → (IsReached w time url × (a : String) × (connect w.redis time url ≡ given a))
      ⊎ (IsLost w time url × (e : String) × (connect w.redis time url ≡ refused e))
unfolding connect connect_to pinged
connect-cases w time url = parsed (w.redis.parse_url url) refl
  where
    answered :
        (addr : String) (o : Option String)
        → w.redis.parse_url url ≡ given addr
        → w.redis.ping time addr ≡ o
        → (IsReached w time url × (a : String) × (pinged addr o ≡ given a))
          ⊎ (IsLost w time url × (e : String) × (pinged addr o ≡ refused e))
    answered addr none p q = inl ((addr, p, q), addr, refl)
    answered addr (some e) p q = inr (inr (addr, e, p, q), e, refl)

    parsed :
        (r : Reply String)
        → w.redis.parse_url url ≡ r
        → (IsReached w time url × (a : String) × (connect_to w.redis time r ≡ given a))
          ⊎ (IsLost w time url × (e : String) × (connect_to w.redis time r ≡ refused e))
    parsed (refused e) p = inr (inl (e, p), e, refl)
    parsed (given addr) p = answered addr (w.redis.ping time addr) p refl

-- How the process ends. It panics at once if ENV is set to another text than DEVELOPMENT or
-- PRODUCTION. Else it exits with 1, and never listens, if its second connection to Redis fails. Else
-- it listens, and stops the server when it is told to; then, whatever the server and the clients
-- answer, it closes both clients and exits with 0, or panics if the first connection had failed,
-- which it has not looked at.
pub main-Ends : (w : World) → Ends w
unfolding main with_logger connected serve_until_done close_clients
main-Ends w = (
  table,
  mux-table,
  elim (init_logger-cases (w.getenv "ENV")) [
    | inr (unknown, e, made) ↦ inl (unknown, rw made refl)
    | inl (known, l, made) ↦ elim (connect-cases w 1 (redis_url w.getenv)) [
      | inr (lost, e, second) ↦ inr (inl (known, lost, rw (made, second) refl))
      | inl (reached, a, second) ↦ elim (connect-cases w 0 (redis_url w.getenv)) [
        | inr (lost, e, first) ↦
            inr (inr (inl (known, reached, lost, rw (made, second, first) (rw mux-table refl))))
        | inl (also, b, first) ↦
            inr (inr (inr (known, reached, also, rw (made, second, first) (rw mux-table refl))))
      ]
    ]
  ],
)
