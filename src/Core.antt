-- ===== src/Core.antt =====
-- core/core.go and core/hookutil.go: the workers, and the entry points for adding and cancelling a
-- task. A worker's effects are the list of its actions in order: what `Execute` and the hook
-- commands do is not modelled, and the error that `Execute` returns is an argument. Which events of
-- a task reach which observer is TaskEvent; what the queue does is Queue. Logging is left out.
pub mod Worker
pub mod Lifecycle
mod Examples
use save_any_bot.Prelude.{
  ℕ, Bool, true, false, String, Option, none, some, List, [], ◌∷◌, ◌++◌, str_eq, if◌then◌else◌,
}
use save_any_bot.TaskEvent.{
  TaskError, Phase, phase_queued, phase_start, phase_done, Event, Context, lifecycle_event,
  source_bot, source_from_context,
}
use save_any_bot.Queue.{
  Task, TaskQueue, Contexts, QueueError, Fetch, fetched, waits, closed_and_empty, new_task, add,
  cancel_task,
}

-- The interface `Executable`, by its three constant methods.
pub record Executable : Type 0 where
  pub type : String
  pub title : String
  pub task_id : String

-- `config.C().Hook.Exec`.
pub record ExecHooks : Type 0 where
  pub task_before_start : String
  pub task_success : String
  pub task_fail : String
  pub task_cancel : String

pub data Action : Type 0 where
  takes_slot : Action
  frees_slot : Action
  emits : Event → Action
  runs : String → Action
  executes : Executable → Action
  dones : String → Action

-- `ExecCommandString`: an empty command is not run. A failure of the command is only logged.
unfoldable pub exec_command_string : String → List Action
exec_command_string cmd = if str_eq cmd "" then [] else runs cmd ∷ []

unfoldable pub task_source {ℓ} : {W : Type ℓ} → Option (Context W) → String
task_source ctx =
    let source = source_from_context ctx in if str_eq source "" then source_bot else source

-- The command that runs after the task, by the error of `Execute`.
unfoldable pub end_hook : ExecHooks → Option TaskError → String
end_hook hooks none = hooks.task_success
end_hook hooks (some err) = if err.is_canceled then hooks.task_cancel else hooks.task_fail

unfoldable pub start_event : Executable → String → Event
start_event exe source = lifecycle_event exe.task_id exe.type exe.title source phase_start none

unfoldable pub done_event : Executable → String → Option TaskError → Event
done_event exe source err = lifecycle_event exe.task_id exe.type exe.title source phase_done err

-- The body of the worker's loop behind `Get`, for a task whose context has the given source.
unfoldable pub process : ExecHooks → Task Executable → String → Option TaskError → List Action
unfolding exec_command_string end_hook start_event done_event
process hooks t source err =
    emits (start_event t.payload source)
    ∷ (exec_command_string hooks.task_before_start
        ++ (executes t.payload
            ∷ (exec_command_string (end_hook hooks err)
                ++ (emits (done_event t.payload source err) ∷ dones t.id ∷ frees_slot ∷ []))))

-- What a worker meets in one round: the answer of `Get`, the source of the task's context and the
-- error of its `Execute`.
pub record Round : Type 0 where
  pub answer : Fetch Executable
  pub source : String
  pub err : Option TaskError

-- A worker that is still inside `Get` has done nothing more; one that met the closed queue ends its
-- loop and keeps its slot.
after_get : ExecHooks → Round → Fetch Executable → List Action → List Action
unfolding process
after_get hooks r (fetched t) rest = process hooks t r.source r.err ++ rest
after_get hooks r waits rest = []
after_get hooks r closed_and_empty rest = []

-- The loop of `worker`: a slot is taken before `Get`.
unfoldable pub worker : ExecHooks → List Round → List Action
unfolding after_get
worker hooks [] = takes_slot ∷ []
worker hooks (r ∷ rs) = takes_slot ∷ after_get hooks r r.answer (worker hooks rs)

-- `AddTask`: the queue after it, its error, and the event that it emits.
unfoldable pub add_task :
    Contexts
    → TaskQueue Executable
    → Executable
    → ℕ
    → ℕ
    → String
    → TaskQueue Executable × Option QueueError × Option Event
add_task ctxs q exe ref now source =
    let (q', err) = add ctxs q (new_task ref exe.task_id exe.title exe now) in
    elim err [
      | some e ↦ (q', some e, none)
      | none ↦
          (q', none, some (lifecycle_event exe.task_id exe.type exe.title source phase_queued none))
    ]

-- `context.Canceled`.
abbrev pub canceled : TaskError
canceled = record { is_canceled = true; message = "context canceled" }

-- `CancelTask`: the contexts after it, its error, and the event that it emits.
unfoldable pub core_cancel_task :
    Contexts → TaskQueue Executable → String → Contexts × Option QueueError × Option Event
core_cancel_task ctxs q id =
    let (ctxs', err) = cancel_task ctxs q id in
    elim err [
      | some e ↦ (ctxs', some e, none)
      | none ↦ (ctxs', none, some (lifecycle_event id "" "" "" phase_done (some canceled)))
    ]
