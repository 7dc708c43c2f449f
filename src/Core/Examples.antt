-- ===== src/Core/Examples.antt =====
-- A worker of core/core.go with one task, and a cancelled task.
use save_any_bot.Prelude.{◌≡◌, refl, true, false, none, some, List, [], ◌∷◌, get}
use save_any_bot.TaskEvent.{TaskError, Event}
use save_any_bot.Queue.{Task, TaskQueue, fetched, closed_and_empty}
use save_any_bot.Progress.{TaskProgressInfo, ProgressStore, cancelled, get_task, store_emit}
use save_any_bot.Progress.Store.{store_emit_all}
use save_any_bot.Core.{
  Executable, ExecHooks, Round, process, start_event, done_event, core_cancel_task,
}
use save_any_bot.Core.Lifecycle.{RunsBetween, Shows, process-Shows, core_cancel_task-Shows}

abbrev exe : Executable
exe = record { type = "tgfiles"; title = "A"; task_id = "a" }

abbrev task : Task Executable
task = record { id = "a"; title = "A"; payload = exe; ref = 7; created = 1 }

abbrev hooks : ExecHooks
hooks = record {
  task_before_start = "";
  task_success = "notify ok";
  task_fail = "notify fail";
  task_cancel = "";
}

abbrev broken : TaskError
broken = record { is_canceled = false; message = "broken" }

abbrev rounds : List Round
rounds =
    record { answer = fetched task; source = "bot"; err = some broken }
    ∷ record { answer = closed_and_empty; source = ""; err = none }
    ∷ []

abbrev empty_store : ProgressStore
empty_store = record { tasks = []; retention = 100 }

process-Shows_example :
    RunsBetween task
      (start_event exe "bot")
      (done_event exe "bot" (some broken))
      (process hooks task "bot" (some broken))
    × ((info : TaskProgressInfo) × (get_task
            (store_emit_all empty_store
              ((start_event exe "bot", 1) ∷ (done_event exe "bot" (some broken), 9) ∷ []))
            "a"
          ≡ some info)
        × Shows (some broken) info)
process-Shows_example = process-Shows empty_store hooks task "bot" (some broken) [] 1 9

abbrev queue : TaskQueue Executable
queue = record {
  tasks = task ∷ [];
  task_map = ("a", task) ∷ [];
  running_task_map = [];
  closed = false;
}

core_cancel_task-Shows_example :
    ((core_cancel_task (λ _. false) queue "a").0 7 ≡ true)
    × ((core_cancel_task (λ _. false) queue "a").1 ≡ none)
    × ((e : Event) × ((core_cancel_task (λ _. false) queue "a").2 ≡ some e)
        × ((info : TaskProgressInfo) × (get_task (store_emit empty_store e 3).0 "a" ≡ some info)
            × (info.status ≡ cancelled)))
core_cancel_task-Shows_example =
    core_cancel_task-Shows (λ _. false) queue "a" task empty_store 3 (unfold get in refl)
