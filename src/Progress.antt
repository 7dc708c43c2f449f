-- ===== src/Progress.antt =====
-- api/progress.go and api/webhook.go: the records that the HTTP interface keeps of all tasks.
-- `now` is the clock when a method runs, in nanoseconds. The store holds a record under its ID; a
-- record and the store are each locked for a whole method, which is one function here, and the
-- cleanup loop is an environment that calls `cleanup_expired` at any time.
pub mod Store
pub mod Webhook
mod Examples
use save_any_bot.Prelude.{
  ℕ, ◌-◌, Bool, true, false, not, ◌&&◌, ◌||◌, String, Option, none, some, List, [], ◌∷◌, ltb,
  str_eq, if◌then◌else◌, StrMap, get, put, delete, map,
}
use save_any_bot.TaskEvent.{
  TaskError, Phase, phase_queued, phase_start, phase_progress, phase_done, Event, source_api,
}

pub data TaskStatus : Type 0 where
  queued running completed failed cancelled : TaskStatus

pub record TaskProgressInfo : Type 0 where
  pub task_id : String
  pub type : String
  pub status : TaskStatus
  pub title : String
  pub source : String
  pub total_bytes : ℕ
  pub downloaded_bytes : ℕ
  pub total_files : ℕ
  pub downloaded_files : ℕ
  pub storage : String
  pub path : String
  pub error : String
  pub created_at : ℕ
  pub updated_at : ℕ
  pub started_at : Option ℕ  -- `none` is the zero time
  pub webhook : String
  pub webhook_notified : Bool

pub record ProgressStore : Type 0 where
  pub tasks : StrMap TaskProgressInfo
  pub retention : ℕ

pub record WebhookPayload : Type 0 where
  pub task_id : String
  pub type : String
  pub status : TaskStatus
  pub storage : String
  pub path : String
  pub completed_at : Option ℕ
  pub error : String

-- The literal that both constructors of a record write, and the zero values of the rest.
unfoldable pub fresh_info :
    String → String → String → String → String → String → String → ℕ → TaskProgressInfo
fresh_info task_id type storage path title webhook source now = record {
  task_id = task_id;
  type = type;
  status = queued;
  title = title;
  source = source;
  total_bytes = 0;
  downloaded_bytes = 0;
  total_files = 0;
  downloaded_files = 0;
  storage = storage;
  path = path;
  error = "";
  created_at = now;
  updated_at = now;
  started_at = none;
  webhook = webhook;
  webhook_notified = false;
}

unfoldable pub register_task_from :
    ProgressStore → String → String → String → String → String → String → String → ℕ → ProgressStore
unfolding fresh_info
register_task_from s task_id type storage path title webhook source now = record s {
  tasks = put task_id (fresh_info task_id type storage path title webhook source now) s.tasks;
}

unfoldable pub register_task :
    ProgressStore → String → String → String → String → String → String → ℕ → ProgressStore
unfolding register_task_from
register_task s task_id type storage path title webhook now =
    register_task_from s task_id type storage path title webhook source_api now

unfoldable pub get_task : ProgressStore → String → Option TaskProgressInfo
get_task s task_id = get task_id s.tasks

unfoldable pub get_all_tasks : ProgressStore → List TaskProgressInfo
get_all_tasks s = map (λ e. e.1) s.tasks

unfoldable pub delete_task : ProgressStore → String → ProgressStore
delete_task s task_id = record s { tasks = delete task_id s.tasks }

abbrev pub is_completed : TaskStatus → Bool
is_completed completed = true
is_completed _ = false

abbrev pub is_failed : TaskStatus → Bool
is_failed failed = true
is_failed _ = false

abbrev pub is_cancelled : TaskStatus → Bool
is_cancelled cancelled = true
is_cancelled _ = false

unfoldable pub is_terminal : TaskStatus → Bool
is_terminal s = is_completed s || is_failed s || is_cancelled s

unfoldable pub is_stale : ℕ → ℕ → TaskProgressInfo → Bool
unfolding is_terminal
is_stale now retention info = is_terminal info.status && ltb retention (now - info.updated_at)

-- The loop over the map, which deletes the entry that it stands at.
expire : ℕ → ℕ → StrMap TaskProgressInfo → StrMap TaskProgressInfo
unfolding is_stale
expire now retention [] = []
expire now retention ((id, info) ∷ m) =
    let rest = expire now retention m in
    if is_stale now retention info then delete id rest else (id, info) ∷ rest

unfoldable pub cleanup_expired : ProgressStore → ℕ → ProgressStore
unfolding expire
cleanup_expired s now = record s { tasks = expire now s.retention s.tasks }

-- `StartedAt` is set once.
abbrev pub started : Option ℕ → ℕ → Option ℕ
started none now = some now
started (some at) now = some at

abbrev pub is_running : TaskStatus → Bool
is_running running = true
is_running _ = false

unfoldable pub update_status : TaskProgressInfo → TaskStatus → ℕ → TaskProgressInfo
update_status t status now = record t {
  status = status;
  updated_at = now;
  started_at = if is_running status then started t.started_at now else t.started_at;
}

unfoldable pub set_error : TaskProgressInfo → String → ℕ → TaskProgressInfo
set_error t err now = record t { error = err; status = failed; updated_at = now }

on_done : TaskProgressInfo → Option TaskError → TaskProgressInfo
on_done t none = record t { status = completed }
on_done t (some err) =
    if err.is_canceled
    then record t { status = cancelled }
    else record t { status = failed; error = err.message }

-- The `switch` of `Emit`.
apply_phase : TaskProgressInfo → Event → Phase → ℕ → TaskProgressInfo
unfolding on_done
apply_phase t e phase_queued now = t
apply_phase t e phase_start now = record t {
  status = running;
  started_at = started t.started_at now;
  total_bytes = if ltb 0 e.total_bytes then e.total_bytes else t.total_bytes;
}
apply_phase t e phase_progress now = record t {
  status = running;
  total_bytes = if ltb 0 e.total_bytes then e.total_bytes else t.total_bytes;
  downloaded_bytes = e.downloaded_bytes;
  total_files = if ltb 0 e.total_files then e.total_files else t.total_files;
  downloaded_files = if ltb 0 e.downloaded_files then e.downloaded_files else t.downloaded_files;
}
apply_phase t e phase_done now = on_done t e.err

unfoldable pub create_webhook_payload :
    String → String → TaskStatus → String → String → Option TaskError → ℕ → WebhookPayload
create_webhook_payload task_id type status storage path err now = record {
  task_id = task_id;
  type = type;
  status = status;
  storage = storage;
  path = path;
  completed_at = if is_completed status || is_failed status then some now else none;
  error = elim err [ none ↦ "" | some e ↦ e.message ];
}

must_notify : TaskProgressInfo → Bool
must_notify t =
    not (str_eq t.webhook "")
    && not t.webhook_notified
    && (is_completed t.status || is_failed t.status)

-- A webhook that a call of `Emit` is still to send when it has given up the lock.
pub record Notice : Type 0 where
  pub err : Option TaskError

-- The end of the locked part of `Emit`.
settle : TaskProgressInfo → Option TaskError → TaskProgressInfo × Option Notice
unfolding must_notify
settle t err =
    if must_notify t
    then (record t { webhook_notified = true }, some (record { err = err }))
    else (t, none)

-- The locked part of `TaskProgressInfo.Emit`.
unfoldable pub emit : TaskProgressInfo → Event → ℕ → TaskProgressInfo × Option Notice
unfolding apply_phase settle
emit t e now = settle (record (apply_phase t e e.phase now) { updated_at = now }) e.err

-- The part behind the lock, on the record as it then is: other events may have come between.
unfoldable pub notify : TaskProgressInfo → Notice → ℕ → WebhookPayload
unfolding create_webhook_payload
notify t n now = create_webhook_payload t.task_id t.type t.status t.storage t.path n.err now

abbrev pub is_queued_phase : Phase → Bool
is_queued_phase phase_queued = true
is_queued_phase _ = false

abbrev pub or_new : Option TaskProgressInfo → TaskProgressInfo → TaskProgressInfo
or_new none new = new
or_new (some info) new = info

-- `progressStore.Emit`: it makes a record for a task that it does not know.
unfoldable pub store_emit : ProgressStore → Event → ℕ → ProgressStore × Option Notice
unfolding fresh_info
store_emit s e now =
    let info =
      or_new (get e.task_id s.tasks)
        (fresh_info e.task_id e.task_type "" "" e.title "" e.source now) in
    let (info', notice) = emit info e now in
    if is_queued_phase e.phase
    then (record s { tasks = put e.task_id info s.tasks }, none)
    else (record s { tasks = put e.task_id info' s.tasks }, notice)
