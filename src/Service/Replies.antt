-- ===== src/Service/Replies.antt =====
-- How a handler answers: the functions of Service/Calls report an error as a text, which becomes a
-- response with a status (util/response.go).
use runner_controller_micros.Base.{ℕ, String, Option, none, some}
use runner_controller_micros.Service.World.{Response}
use runner_controller_micros.Service.Exec.{Step, value, stop, crash, Exec, on_error}

module _ {C : Type 0} where
  abbrev pub reply_error : ℕ → String → Response C
  reply_error status m = record { code = status; message = m; content = none }

  -- An error is answered with the status and its text.
  abbrev pub or_reply : {A : Type 0} → ℕ → Exec String A → Exec (Response C) A
  or_reply status m = on_error (reply_error status) m

  -- An error is answered with 500, its text kept back.
  abbrev pub or_apologise : {A : Type 0} → Exec String A → Exec (Response C) A
  or_apologise m = on_error (λ _. reply_error 500 "something went wrong") m

-- The answer to a request; after a panic there is none.
abbrev pub answered_with : {R : Type 0} → Step R R → Option R
answered_with (value r) = some r
answered_with (stop r) = some r
answered_with crash = none
