-- ===== src/Service/Backing.antt =====
-- What stands behind a message when it is put on the queue: a run of an authenticated user, whose
-- program and request are in the object store.
use runner_controller_micros.Base.{◌≡◌, subst, String, true, some, List, [], ◌∷◌}
use mathlib.Core.List.{Mem}
use runner_controller_micros.Service.World.{
  Call, push, History, Row, Verdict, Data, given, Env, Request, dial_auth, authenticate, open_pool,
  insert_run, insert_access, make_dir, write_file, remove_file, minio_client, make_bucket,
  bucket_exists, set_policy, put_object, dial_queue, open_channel, declare_queue, close_channel,
  close_connection, select_access_runs, select_runs, select_run, select_users, select_access,
}
use runner_controller_micros.Service.Calls.{queue}
use runner_controller_micros.Service.Effects.{World, apply, replay}
use runner_controller_micros.Service.Progress.{object_name}

-- What the program of a request is, for its body.
abbrev pub Meaning : Env → Type 1
Meaning env = Request env.Value → Data env.Value → String → Type 0

module _ (env : Env) (M : Meaning env) where
  -- The run is of a request whose user the auth service finds valid; its row names this user, who has
  -- the access for writing; the object store has the program of the request and its body.
  pub record Stored (run_id : String) (w : World) : Type 0 where
    pub request : Request env.Value
    pub token : String
    pub user : Verdict
    pub content : Data env.Value
    pub text : String
    pub input : String
    pub row : Row
    pub asked : History
    pub before_run : History
    pub cookie : request.token ≡ some token
    pub verdict : env.verdict asked token ≡ given user
    pub valid : user.valid ≡ true
    pub body : request.body ≡ some content
    pub meant : M request content text
    pub encoded : env.encode content ≡ given input
    pub created_by : row.created_by ≡ user.id
    pub new_run : env.new_run before_run row ≡ given run_id
    pub recorded : Mem row w.runs
    pub owned : Mem (run_id, user.id, "write") w.accesses
    pub program_stored : w.objects "code" (object_name run_id "code" "py") ≡ some text
    pub request_stored : w.objects "code" (object_name run_id "input" "json") ≡ some input

  -- The message on the queue names a run that is stored.
  pub record Backing (queue_name message : String) (w : World) : Type 0 where
    pub run_id : String
    pub before_message : History
    pub on_queue : queue_name ≡ queue env
    pub encoded :
        env.encode_message before_message
          (record { run_id = run_id; file_name = "code"; extension = "py" })
        ≡ given message
    pub stored : Stored run_id w

  -- Every message, in the world that it was pushed in.
  abbrev pub BackedCalls : List Call → Type 0
  BackedCalls [] = Unit
  BackedCalls (push q message ∷ cs) = Backing q message (replay cs) × BackedCalls cs
  BackedCalls (c ∷ cs) = BackedCalls cs

  abbrev pub Backed : World → Type 0
  Backed w = BackedCalls w.calls

  -- When a call that succeeds keeps the messages backed.
  abbrev pub Fine : World → Call → Type 0
  Fine w (push q message) = Backing q message w
  Fine w c = Unit

  pub apply-Backed :
      (c : Call) (w : World) → w ≡ replay w.calls → Fine w c → Backed w → Backed (apply c w)
  apply-Backed (push q message) w e b h = (subst (Backing q message) e b, h)
  apply-Backed (insert_run row) w e f h = h
  apply-Backed (insert_access id user mode) w e f h = h
  apply-Backed (write_file path content) w e f h = h
  apply-Backed (remove_file path) w e f h = h
  apply-Backed (put_object bucket name path) w e f h = h
  apply-Backed (dial_queue url) w e f h = h
  apply-Backed open_channel w e f h = h
  apply-Backed (declare_queue name) w e f h = h
  apply-Backed close_channel w e f h = h
  apply-Backed close_connection w e f h = h
  apply-Backed dial_auth w e f h = h
  apply-Backed (authenticate token) w e f h = h
  apply-Backed open_pool w e f h = h
  apply-Backed (make_dir dir) w e f h = h
  apply-Backed minio_client w e f h = h
  apply-Backed (make_bucket bucket) w e f h = h
  apply-Backed (bucket_exists bucket) w e f h = h
  apply-Backed (set_policy bucket policy) w e f h = h
  apply-Backed (select_access_runs user) w e f h = h
  apply-Backed (select_runs ids) w e f h = h
  apply-Backed (select_run id) w e f h = h
  apply-Backed (select_users emails) w e f h = h
  apply-Backed (select_access user id) w e f h = h
