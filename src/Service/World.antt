-- ===== src/Service/World.antt =====
-- What a request of the service meets: the calls to other programs, with what they answer, and the
-- trace of those made.
use runner_controller_micros.Base.{ℕ, String, Bool, Option, List}
use runner_controller_micros.Base.Int.{ℤ}
use runner_controller_micros.Base.Outcome.{Outcome}

-- The columns of the `INSERT INTO run`.
pub record Row : Type 0 where
  pub name : String
  pub description : String
  pub run_type : String
  pub command : String
  pub created_by : String

-- The columns of a row of `run`, the times as they are printed in the local zone.
pub record RunRow : Type 0 where
  pub id : String
  pub name : String
  pub description : String
  pub status : String
  pub run_type : String
  pub command : String
  pub created_by : String
  pub created_at : String
  pub updated_at : String

-- The calls that leave the process: to the auth service, to PostgreSQL, to the file system, to
-- MinIO, to RabbitMQ (from `dial_queue` to `close_connection`) and to Redis.
pub data Call : Type 0 where
  dial_auth : Call
  authenticate : String → Call
  open_pool : Call
  insert_run : Row → Call
  insert_access : String → String → String → Call
  make_dir : String → Call
  write_file : String → String → Call
  remove_file : String → Call
  minio_client : Call
  make_bucket : String → Call
  bucket_exists : String → Call
  set_policy : String → String → Call
  put_object : String → String → String → Call
  dial_queue : String → Call
  open_channel : Call
  declare_queue : String → Call
  close_channel : Call
  close_connection : Call
  push : String → String → Call
  select_access_runs : String → Call
  select_runs : List String → Call
  select_run : String → Call
  select_users : List String → Call
  select_access : String → String → Call

pub data Event : Type 0 where
  succeeded : Call → Event
  failed : Call → Event

-- The events so far, the last one first.
abbrev pub History : Type 0
History = List Event

-- A result with an error beside it.
pub data Reply (A : Type 0) : Type 0 where
  given : A → Reply A
  refused : String → Reply A

-- `TokenValidateResponse` of the auth service
pub record Verdict : Type 0 where
  pub valid : Bool
  pub id : String
  pub user_name : String
  pub full_name : String
  pub email : String
  pub role : String

-- The struct `Message` of util/enqueue.go, less the time, which the environment fills in.
pub record Message : Type 0 where
  pub run_id : String
  pub file_name : String
  pub extension : String

-- The entries of a map, in any order.
abbrev pub Fields : Type 0 → Type 0
Fields V = List (String × V)

-- A `map[string]any`: `none` is the nil map, which JSON's `null` decodes to.
abbrev pub Data : Type 0 → Type 0
Data V = Option (Fields V)

-- The other programs. What each answers may depend on all that happened before, so also on what
-- other requests did. `Value` is the type of decoded JSON values.
pub record Env : Type 1 where
  pub Value : Type 0
  pub text : String → Value
  pub encode : Data Value → Reply String
  pub encode_message : History → Message → Reply String
  pub perform : History → Call → Option String  -- the error of a call without a result
  pub verdict : History → String → Reply Verdict
  pub new_run : History → Row → Reply String
  pub has_bucket : History → String → Reply Bool
  -- The rows of a query; each is scanned by itself, which may fail.
  pub access_runs : History → String → Reply (List (Reply String))
  pub run_rows : History → List String → Reply (List (Reply RunRow))
  pub user_ids : History → List String → Reply (List (Reply String))
  -- The one row of a query.
  pub run_id : History → String → Reply String
  pub access_run : History → String → String → Reply String
  pub run_row : History → String → Reply RunRow
  pub queue_name : String  -- the variable REDIS_QUEUE_NAME
  pub rabbitmq_url : String  -- the variable RABBITMQ_URL

-- `token` is the cookie t, `body` what the JSON decoder makes of the body, `none` an error of it.
pub record Request (V : Type 0) : Type 0 where
  pub method : String
  pub token : Option String
  pub body : Option (Data V)

-- The struct `Response` of util/response.go, for data of the type `C`; `none` is left out of the JSON.
pub record Response (C : Type 0) : Type 0 where
  pub code : ℕ
  pub message : String
  pub content : Option C

-- What the process keeps: whether `dbpool` is set, and the trace.
pub record State : Type 0 where
  pub pooled : Bool
  pub trace : History

-- What a handler is told of an algorithm: its request with the decoder, `Code`, and the columns of
-- the run. `Code` may change its receiver.
pub record Kind (V : Type 0) : Type 1 where
  pub Req : Type 0
  pub from_json : Data V → Reply Req
  pub code : Req → Outcome String × Req
  pub generations : Req → ℤ
  pub population_size : Req → ℤ
  pub description : Req → String
  pub run_type : String
  pub command : String
