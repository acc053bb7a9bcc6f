-- ===== src/Sse/Payload.antt =====
-- The payload of an entry of the log, in modules/sse/server.go: the struct `redisLogPayload` that
-- it is decoded to, and the test for the end of the log.
pub mod Ending
use runner_controller_micros.Base.{
  String, ◌==◌, Bool, true, false, Option, none, some, List, [], ◌∷◌,
}
use runner_controller_micros.Service.World.{Reply, given, refused, Data}
use runner_controller_micros.Json.Value.{Json}
use runner_controller_micros.Json.Reader.{read_string}
use runner_controller_micros.Json.Struct.{Field, field, set_all, result}
use runner_controller_micros.Sse.Stream.{Env}

pub record RedisLogPayload : Type 0 where
  pub stream : String
  pub line : String
  pub status : String
  pub run_id : String

abbrev pub eof_status : String
eof_status = "EOF"

abbrev pub zero_payload : RedisLogPayload
zero_payload = record { stream = ""; line = ""; status = ""; run_id = "" }

abbrev pub is_eof : Reply RedisLogPayload → Bool
is_eof (given p) = p.status == eof_status
is_eof (refused e) = false

module _ {N : Type 0} where
  abbrev pub redis_log_payload_fields : List (Field N RedisLogPayload)
  redis_log_payload_fields =
      field "stream" read_string (λ r. r.stream) (λ x r. record r { stream = x })
      ∷ field "line" read_string (λ r. r.line) (λ x r. record r { line = x })
      ∷ field "status" read_string (λ r. r.status) (λ x r. record r { status = x })
      ∷ field "runId" read_string (λ r. r.run_id) (λ x r. record r { run_id = x })
      ∷ []

  -- The entries are those of the text, in its order; `null` leaves the struct as it is.
  unfoldable pub unmarshal : Data (Json N) → Reply RedisLogPayload
  unmarshal none = given zero_payload
  unmarshal (some m) =
      result "redisLogPayload" redis_log_payload_fields
        (set_all "redisLogPayload" redis_log_payload_fields m (zero_payload, none))

  -- Whether a payload is the end of the log: it is decoded, and its status is EOF. `none` is a text
  -- that is no JSON, or neither an object nor `null`.
  unfoldable pub is_end : Option (Data (Json N)) → Bool
  unfolding unmarshal
  is_end none = false
  is_end (some d) = is_eof (unmarshal d)

  -- The environment with the test of the code, over what the texts are as JSON.
  unfoldable pub with_payloads : (String → Option (Data (Json N))) → Env → Env
  unfolding is_end
  with_payloads parse env = record env { is_eof = λ p. is_end (parse p) }
