-- ===== src/Tests/Payload.antt =====
-- Payloads of the log.
use runner_controller_micros.Base.{
  ℕ, ◌≡◌, refl, String, ◌==◌, ◌&&◌, true, false, some, List, [], ◌∷◌,
}
use runner_controller_micros.Base.Text.{translate}
use runner_controller_micros.Json.Value.{Json, text, number}
use runner_controller_micros.Json.Keys.{fold}
use runner_controller_micros.Json.Reader.{read_string}
use runner_controller_micros.Json.Struct.{set_all, find_field, by_name, by_fold}
use runner_controller_micros.Sse.Payload.{unmarshal, is_end}
use runner_controller_micros.Sse.Payload.Ending.{all_fit, last_status, is_end-object}

abbrev last_payload : List (String × Json ℕ)
last_payload = ("runId", text "run-1") ∷ ("Status", text "EOF") ∷ ("extra", number 1) ∷ []

is_end-object_example :
    is_end (some (some last_payload))
    ≡ all_fit last_payload && (last_status "" last_payload == "EOF")
is_end-object_example = is_end-object last_payload

is_last : is_end (some (some last_payload)) ≡ true
unfolding is_end unmarshal set_all find_field by_name by_fold fold translate read_string
is_last = refl

-- A line that is no text spoils the end.
not_last : is_end (some (some (("line", number 1) ∷ last_payload))) ≡ false
unfolding is_end unmarshal set_all find_field by_name by_fold fold translate read_string
not_last = refl
