-- ===== src/Progress/Examples.antt =====
-- A task that fails, then is reported as done once more, in the records of api/progress.go.
use save_any_bot.Prelude.{
  map, ℕ, ◌≡◌, refl, false, none, some, List, [], ◌∷◌, get, put, delete, zero, suc,
}
use save_any_bot.TaskEvent.{Event, TaskError, phase_start, phase_done, lifecycle_event}
use save_any_bot.Progress.{
  store_emit, TaskProgressInfo, ProgressStore, queued, running, emit, notify, get_task,
  cleanup_expired, register_task,
}
use save_any_bot.Progress.Store.{
  call, store_emit_all, follow_all, store_emit_all-follow_all, Call, emits, registers, calls,
}
use save_any_bot.Progress.Webhook.{
  Move, arrives, builds, run_moves, first_end, run_moves-first_end, Posted, request_failed,
  response,
}

abbrev broken : TaskError
broken = record { is_canceled = false; message = "broken" }

abbrev starts : Event
starts = lifecycle_event "a" "tgfiles" "A" "api" phase_start none

abbrev fails : Event
fails = lifecycle_event "a" "tgfiles" "A" "api" phase_done (some broken)

abbrev other : Event
other = lifecycle_event "b" "aria2" "B" "bot" phase_done none

abbrev empty_store : ProgressStore
empty_store = record { tasks = []; retention = 100 }

abbrev info : TaskProgressInfo
info = record {
  task_id = "a";
  type = "tgfiles";
  status = queued;
  title = "A";
  source = "api";
  total_bytes = 0;
  downloaded_bytes = 0;
  total_files = 0;
  downloaded_files = 0;
  storage = "local";
  path = "/x";
  error = "";
  created_at = 1;
  updated_at = 1;
  started_at = none;
  webhook = "http://hook";
  webhook_notified = false;
}

abbrev ending : List Move
ending = arrives starts 2 ∷ arrives fails 5 ∷ builds 6 ∷ arrives fails 7 ∷ builds 8 ∷ []

run_moves-first_end_example : run_moves info [] ending ≡ first_end info ending
run_moves-first_end_example = run_moves-first_end info ending refl refl refl

-- An event between the end and the payload changes the status that the payload shows.
late_status :
    map (λ p. p.status) (run_moves info [] (arrives fails 5 ∷ arrives starts 5 ∷ builds 6 ∷ []))
    ≡ running ∷ []
unfolding run_moves emit notify
late_status = refl

abbrev mixed : List (Event × ℕ)
mixed = (starts, 2) ∷ (other, 3) ∷ (fails, 5) ∷ []

store_emit_all-follow_all_example :
    get_task (store_emit_all empty_store mixed) "a"
    ≡ follow_all none ((starts, 2) ∷ (fails, 5) ∷ [])
unfolding get_task get
store_emit_all-follow_all_example = store_emit_all-follow_all empty_store mixed "a"

abbrev day : List (Call × ℕ)
day = (registers "a" "tgfiles" "local" "/x" "A" "", 1) ∷ (emits other, 3) ∷ (emits fails, 500) ∷ []

-- The cleanup drops the other task, which ended long before.
day_cleanup : get_task (cleanup_expired (calls empty_store day) 510) "b" ≡ none
unfolding get_task cleanup_expired calls call register_task emit store_emit get put delete
day_cleanup = refl

abbrev answers : ℕ → Posted
answers zero = request_failed
answers (suc i) = response 204
