-- ===== src/Service/Effects.antt =====
-- What the calls of a trace have done to the other programs, as far as the service relies on it:
-- rows inserted, files written and removed, objects copied from files, messages pushed. A call that
-- failed has done nothing. What the auth service and RabbitMQ keep is left out: nothing is ever sent
-- to the queue that is declared there.
use runner_controller_micros.Base.{
  ◌≡◌, refl, ap, String, ◌==◌, Option, none, some, List, [], ◌∷◌, if◌then◌else◌,
}
use runner_controller_micros.Service.World.{
  Call, dial_auth, authenticate, open_pool, insert_run, insert_access, make_dir, write_file,
  remove_file, minio_client, make_bucket, bucket_exists, set_policy, put_object, push, dial_queue,
  open_channel, declare_queue, close_channel, close_connection, select_access_runs, select_runs,
  select_run, select_users, select_access, succeeded, failed, History, Row,
}

abbrev pub Files : Type 0
Files = String → Option String

-- `objects` is by bucket and name, the other lists have their last element first. `calls` are the
-- calls that have changed something, so that a change that is undone is told from none.
pub record World : Type 0 where
  pub runs : List Row
  pub accesses : List (String × String × String)
  pub files : Files
  pub objects : String → Files
  pub queue : List (String × String)
  pub calls : List Call

abbrev pub set : String → Option String → Files → Files
set path content files p = if path == p then content else files p

abbrev pub set_in : String → String → Option String → (String → Files) → String → Files
set_in bucket name content objects b =
    if bucket == b then set name content (objects b) else objects b

abbrev pub apply : Call → World → World
apply (insert_run row) w = record w { runs = row ∷ w.runs; calls = insert_run row ∷ w.calls }
apply (insert_access id user mode) w = record w {
  accesses = (id, user, mode) ∷ w.accesses;
  calls = insert_access id user mode ∷ w.calls;
}
apply (write_file path content) w = record w {
  files = set path (some content) w.files;
  calls = write_file path content ∷ w.calls;
}
apply (remove_file path) w = record w {
  files = set path none w.files;
  calls = remove_file path ∷ w.calls;
}
apply (put_object bucket name path) w = record w {
  objects = set_in bucket name (w.files path) w.objects;
  calls = put_object bucket name path ∷ w.calls;
}
apply (push queue message) w = record w {
  queue = (queue, message) ∷ w.queue;
  calls = push queue message ∷ w.calls;
}
apply (dial_queue url) w = w
apply open_channel w = w
apply (declare_queue name) w = w
apply close_channel w = w
apply close_connection w = w
apply dial_auth w = w
apply (authenticate token) w = w
apply open_pool w = w
apply (make_dir dir) w = w
apply minio_client w = w
apply (make_bucket bucket) w = w
apply (bucket_exists bucket) w = w
apply (set_policy bucket policy) w = w
apply (select_access_runs user) w = w
apply (select_runs ids) w = w
apply (select_run id) w = w
apply (select_users emails) w = w
apply (select_access user id) w = w

abbrev pub world : History → World
world [] = record {
  runs = [];
  accesses = [];
  files = λ _. none;
  objects = λ _ _. none;
  queue = [];
  calls = [];
}
world (succeeded c ∷ h) = apply c (world h)
world (failed c ∷ h) = world h

-- The world after the calls that have changed something, the last one first.
unfoldable pub replay : List Call → World
replay [] = world []
replay (c ∷ cs) = apply c (replay cs)

apply-replay : (c : Call) (w : World) → w ≡ replay w.calls → apply c w ≡ replay (apply c w).calls
unfolding replay
apply-replay (insert_run row) w e = ap (apply (insert_run row)) e
apply-replay (insert_access id user mode) w e = ap (apply (insert_access id user mode)) e
apply-replay (write_file path content) w e = ap (apply (write_file path content)) e
apply-replay (remove_file path) w e = ap (apply (remove_file path)) e
apply-replay (put_object bucket name path) w e = ap (apply (put_object bucket name path)) e
apply-replay (push queue message) w e = ap (apply (push queue message)) e
apply-replay (dial_queue url) w e = e
apply-replay open_channel w e = e
apply-replay (declare_queue name) w e = e
apply-replay close_channel w e = e
apply-replay close_connection w e = e
apply-replay dial_auth w e = e
apply-replay (authenticate token) w e = e
apply-replay open_pool w e = e
apply-replay (make_dir dir) w e = e
apply-replay minio_client w e = e
apply-replay (make_bucket bucket) w e = e
apply-replay (bucket_exists bucket) w e = e
apply-replay (set_policy bucket policy) w e = e
apply-replay (select_access_runs user) w e = e
apply-replay (select_runs ids) w e = e
apply-replay (select_run id) w e = e
apply-replay (select_users emails) w e = e
apply-replay (select_access user id) w e = e

pub world-replay : (h : History) → world h ≡ replay (world h).calls
unfolding replay
world-replay [] = refl
world-replay (failed c ∷ h) = world-replay h
world-replay (succeeded c ∷ h) = apply-replay c (world h) (world-replay h)
