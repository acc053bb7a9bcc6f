-- ===== src/Runs/Decoding.antt =====
-- `ShareRunReqFromJSON` and `RunDataReqFromJSON` of modules/run.go.
use runner_controller_micros.Base.{List, [], ◌∷◌}
use runner_controller_micros.Json.Value.{Json}
use runner_controller_micros.Json.Reader.{read_string, read_slice}
use runner_controller_micros.Json.Struct.{Field, field, from_json}
use runner_controller_micros.Runs.Queries.{ShareRunReq, RunDataReq}
use runner_controller_micros.Service.World.{Reply, Data}

module _ (N : Type 0) where
  abbrev pub share_run_req_fields : List (Field N ShareRunReq)
  share_run_req_fields =
      field "runID" read_string (λ r. r.run_id) (λ x r. record r { run_id = x })
      ∷ field "userEmailList" (read_slice read_string "" "string") (λ r. r.user_email_list)
          (λ x r. record r { user_email_list = x })
      ∷ []

  unfoldable pub share_run_req_from_json : Data (Json N) → Reply ShareRunReq
  share_run_req_from_json =
      from_json "ShareRunReq" share_run_req_fields (record { run_id = ""; user_email_list = [] })

  abbrev pub run_data_req_fields : List (Field N RunDataReq)
  run_data_req_fields =
      field "runID" read_string (λ r. r.run_id) (λ x r. record r { run_id = x }) ∷ []

  unfoldable pub run_data_req_from_json : Data (Json N) → Reply RunDataReq
  run_data_req_from_json = from_json "RunDataReq" run_data_req_fields (record { run_id = "" })
