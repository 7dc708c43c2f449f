-- ===== src/Queue/Examples.antt =====
-- Runs of the task queue of pkg/queue, and its theorems at them.
use save_any_bot.Prelude.{ℕ, ◌≡◌, refl, ◌≢◌, false, List, [], ◌∷◌, ◌++◌, All, get, put, delete}
use save_any_bot.Queue.{Task, new_task_queue, add, fetch, active_length, done, cancel_task, close}
use save_any_bot.Queue.Reference.{
  State, Event, adds, fetches, dones, cancels, closes, run, step, all_entering, all_leaving,
  handed_over, find,
}
use save_any_bot.Queue.Order.{run-order, fetch-Answers, Answers}
use save_any_bot.Queue.Invariant.{Inv, new_task_queue-Inv, run-Inv}
use save_any_bot.Queue.Cancellation.{cancel_task-handed_over}

abbrev first : Task ℕ
first = record { id = "a"; title = "first"; payload = 1; ref = 1; created = 10 }

abbrev second : Task ℕ
second = record { id = "b"; title = "second"; payload = 2; ref = 2; created = 11 }

abbrev start : State ℕ
start = record {
  queue = record { tasks = []; task_map = []; running_task_map = []; closed = false };
  ctxs = λ _. false;
}

abbrev history : List (Event ℕ)
history =
    adds first
    ∷ adds second
    ∷ adds first
    ∷ cancels "a"
    ∷ fetches
    ∷ dones "b"
    ∷ closes
    ∷ fetches
    ∷ []

-- The second task is handed over, since the first was cancelled while it waited.
handed_over-history : handed_over start history ≡ second ∷ []
unfolding handed_over step add fetch done cancel_task close find get put delete
handed_over-history = refl

start-Inv : Inv start.queue
unfolding new_task_queue
start-Inv = new_task_queue-Inv

run-order_example :
    [] ++ all_entering start history ≡ all_leaving start history ++ (run start history).queue.tasks
run-order_example = run-order start history

abbrev loaded : State ℕ
loaded = run start (adds first ∷ adds second ∷ [])

fetch-Answers_example :
    Answers loaded.ctxs
      (active_length loaded.ctxs loaded.queue)
      loaded.queue.closed
      (fetch loaded.ctxs loaded.queue)
fetch-Answers_example = fetch-Answers loaded.ctxs loaded.queue

run-Inv_example : Inv (run start history).queue
unfolding step add fetch done cancel_task close find get put delete
run-Inv_example =
    run-Inv start history start-Inv (tt, (tt, (tt, (tt, (tt, (refl, (tt, (tt, tt))))))))

loaded-Inv : Inv loaded.queue
loaded-Inv = run-Inv start (adds first ∷ adds second ∷ []) start-Inv (tt, (tt, tt))

cancel_task-handed_over_example :
    All (λ (u : Task ℕ). u.ref ≢ 1) (handed_over (step loaded (cancels "a")) (fetches ∷ []))
cancel_task-handed_over_example =
    cancel_task-handed_over loaded "a" first (fetches ∷ []) (unfold run step add get put in refl)
