-- ===== src/Core/Lifecycle.antt =====
-- A task of core/core.go from its entry to its end, as the records of api/progress.go show it.
use save_any_bot.Prelude.{
  ℕ, ◌≡◌, refl, ap, ◌∙◌, true, false, String, Option, none, some, List, [], ◌∷◌, ◌++◌, arith,
  str_eq_refl, get,
}
use save_any_bot.TaskEvent.{TaskError, Event, phase_done, lifecycle_event}
use save_any_bot.Queue.{Task, TaskQueue, Contexts, cancel, cancel_task}
use save_any_bot.Progress.{cancelled, TaskProgressInfo, ProgressStore, emit, store_emit, get_task}
use save_any_bot.Progress.Store.{store_emit_all, follow, get-store_emit}
use save_any_bot.Progress.Webhook.{outcome}
use save_any_bot.Core.{
  Executable, ExecHooks, Action, emits, executes, dones, frees_slot, exec_command_string, end_hook,
  process, start_event, done_event, core_cancel_task, canceled,
}

-- The events among some actions.
abbrev pub events : List Action → List Event
events [] = []
events (emits e ∷ acts) = e ∷ events acts
events (_ ∷ acts) = events acts

exec-events :
    (cmd : String) (acts : List Action) → events (exec_command_string cmd ++ acts) ≡ events acts
unfolding exec_command_string
exec-events cmd acts = ground arith

-- The tasks that some actions run.
unfoldable pub executions : List Action → List Executable
executions [] = []
executions (executes x ∷ acts) = x ∷ executions acts
executions (_ ∷ acts) = executions acts

exec-executions :
    (cmd : String) (acts : List Action)
    → executions (exec_command_string cmd ++ acts) ≡ executions acts
unfolding exec_command_string executions
exec-executions cmd acts = ground arith

-- What a record says of an end.
abbrev pub Shows : Option TaskError → TaskProgressInfo → Type 0
Shows err info =
    (info.status ≡ outcome err)
    × ((e : TaskError) → err ≡ some e → e.is_canceled ≡ false → info.error ≡ e.message)

follow-Shows :
    (o : Option TaskProgressInfo) (e : Event) (now : ℕ)
    → e.phase ≡ phase_done
    → Shows e.err (follow o e now)
unfolding follow emit
follow-Shows o e now h = (ground arith, λ err p q. ground arith)

store_emit_all-append :
    (s : ProgressStore) (es fs : List (Event × ℕ))
    → store_emit_all s (es ++ fs) ≡ store_emit_all (store_emit_all s es) fs
unfolding store_emit_all
store_emit_all-append s [] fs = refl
store_emit_all-append s ((e, now) ∷ es) fs = store_emit_all-append (store_emit s e now).0 es fs

ends-Shows :
    (s : ProgressStore) (es : List (Event × ℕ)) (e : Event) (now : ℕ)
    → e.phase ≡ phase_done
    → (info : TaskProgressInfo) × (get_task (store_emit_all s (es ++ (e, now) ∷ [])) e.task_id
        ≡ some info)
      × Shows e.err info
unfolding get_task store_emit_all
ends-Shows s es e now h = (
  follow (get e.task_id (store_emit_all s es).tasks) e now,
  rw (store_emit_all-append s es ((e, now) ∷ []))
      (ground (arith, get-store_emit (store_emit_all s es) e now e.task_id, str_eq_refl e.task_id)),
  follow-Shows (get e.task_id (store_emit_all s es).tasks) e now h,
)

exec-runs :
    (cmd : String)
    → (events (exec_command_string cmd) ≡ []) × (executions (exec_command_string cmd) ≡ [])
unfolding exec_command_string executions
exec-runs cmd = ground arith

-- The actions of a worker around the run of the task: one event before, and one after.
pub record RunsBetween (t : Task Executable) (from to : Event) (acts : List Action) : Type 0 where
  pub before : List Action
  pub after : List Action
  pub whole : acts ≡ before ++ executes t.payload ∷ after
  pub once : executions acts ≡ t.payload ∷ []
  pub first : events before ≡ from ∷ []
  pub last : events after ≡ to ∷ []

process-RunsBetween :
    (hooks : ExecHooks) (t : Task Executable) (source : String) (err : Option TaskError)
    → RunsBetween t
        (start_event t.payload source)
        (done_event t.payload source err)
        (process hooks t source err)
unfolding process executions
process-RunsBetween hooks t source err = record {
  before = emits (start_event t.payload source) ∷ exec_command_string hooks.task_before_start;
  after =
      exec_command_string (end_hook hooks err)
      ++ (emits (done_event t.payload source err) ∷ dones t.id ∷ frees_slot ∷ []);
  whole = refl;
  once =
      exec-executions hooks.task_before_start _
      ∙ ap (◌∷◌ t.payload) (exec-executions (end_hook hooks err) _);
  first = ap (◌∷◌ (start_event t.payload source)) (exec-runs hooks.task_before_start).0;
  last = exec-events (end_hook hooks err) _;
}

-- A worker that processes a task runs it once and emits exactly two events of its own, one before the run
-- and one after it; whatever other events, of this task or of others, reach the records
-- before and between the two, the task's record then shows how `Execute` ended: completed, failed
-- with the error's message, or cancelled.
pub process-Shows :
    (s : ProgressStore) (hooks : ExecHooks) (t : Task Executable) (source : String)
    (err : Option TaskError) (mid : List (Event × ℕ)) (from to : ℕ)
    → RunsBetween t
        (start_event t.payload source)
        (done_event t.payload source err)
        (process hooks t source err)
      × ((info : TaskProgressInfo) × (get_task
              (store_emit_all s (
                (start_event t.payload source, from) ∷ mid
                ++ (done_event t.payload source err, to) ∷ []))
              t.payload.task_id
            ≡ some info)
          × Shows err info)
unfolding start_event done_event
process-Shows s hooks t source err mid from to = (
  process-RunsBetween hooks t source err,
  ends-Shows s ((start_event t.payload source, from) ∷ mid) (done_event t.payload source err) to
      refl,
)

cancelled_event : String → Event
cancelled_event id = lifecycle_event id "" "" "" phase_done (some canceled)

core_cancel_task-hit :
    (ctxs : Contexts) (q : TaskQueue Executable) (id : String) (t : Task Executable)
    → get id q.task_map ≡ some t
    → ((core_cancel_task ctxs q id).0 t.ref ≡ true)
      × ((core_cancel_task ctxs q id).1 ≡ none)
      × ((core_cancel_task ctxs q id).2 ≡ some (cancelled_event id))
unfolding core_cancel_task cancel_task cancel cancelled_event
core_cancel_task-hit ctxs q id t h = ground arith

-- `CancelTask` for the ID of a task in the queue's map succeeds, closes that task's context, and its
-- event makes the task's record show "cancelled", whatever the record was before and even if there
-- was none.
pub core_cancel_task-Shows :
    (ctxs : Contexts) (q : TaskQueue Executable) (id : String) (t : Task Executable)
    (s : ProgressStore) (now : ℕ)
    → get id q.task_map ≡ some t
    → ((core_cancel_task ctxs q id).0 t.ref ≡ true)
      × ((core_cancel_task ctxs q id).1 ≡ none)
      × ((e : Event) × ((core_cancel_task ctxs q id).2 ≡ some e)
          × ((info : TaskProgressInfo) × (get_task (store_emit s e now).0 id ≡ some info)
              × (info.status ≡ cancelled)))
unfolding cancelled_event get_task
core_cancel_task-Shows ctxs q id t s now h =
    let (closed, succeeded, event) = core_cancel_task-hit ctxs q id t h in
    let (info, found, shows) = ends-Shows s [] (cancelled_event id) now refl in
    (
      closed,
      succeeded,
      (cancelled_event id, event, (info, (unfold store_emit_all in found), shows.0)),
    )
