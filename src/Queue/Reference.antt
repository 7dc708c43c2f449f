-- ===== src/Queue/Reference.antt =====
-- Events on the task queue of pkg/queue, histories of them, and what a reader expects of a history.
-- `expires` is an environment that cancels a context from outside, as a parent context does.
use save_any_bot.Prelude.{
  ℕ, String, Option, none, some, List, [], ◌∷◌, ◌++◌, take_while, str_eq, if◌then◌else◌,
}
use save_any_bot.Queue.{
  Task, TaskQueue, Contexts, QueueError, Fetch, fetched, waits, closed_and_empty, cancelled, cancel,
  add, fetch, done, cancel_task, close,
}

pub record State {ℓ} (A : Type ℓ) : Type ℓ where
  pub queue : TaskQueue A
  pub ctxs : Contexts

pub data Event {ℓ} (A : Type ℓ) : Type ℓ where
  adds : Task A → Event A
  fetches : Event A
  dones : String → Event A
  cancels : String → Event A
  closes : Event A
  expires : ℕ → Event A

module _ {ℓ} {A : Type ℓ} where
  unfoldable pub step : State A → Event A → State A
  step s (adds t) = record s { queue = (add s.ctxs s.queue t).0 }
  step s fetches = record s { queue = (fetch s.ctxs s.queue).0 }
  step s (dones id) = record s { queue = done s.queue id }
  step s (cancels id) = record s { ctxs = (cancel_task s.ctxs s.queue id).0 }
  step s closes = record s { queue = close s.queue }
  step s (expires ref) = record s { ctxs = cancel s.ctxs ref }

  unfoldable pub run : State A → List (Event A) → State A
  run s [] = s
  run s (e ∷ es) = run (step s e) es

  abbrev pub admitted : Task A → Option QueueError → List (Task A)
  admitted t none = t ∷ []
  admitted t (some _) = []

  -- The task that an event puts in, if `Add` takes it.
  abbrev pub entering : State A → Event A → List (Task A)
  entering s (adds t) = admitted t (add s.ctxs s.queue t).1
  entering s _ = []

  abbrev pub delivered : Fetch A → List (Task A)
  delivered (fetched t) = t ∷ []
  delivered waits = []
  delivered closed_and_empty = []

  -- The tasks that an event takes out: the cancelled ones in front, then the one handed over.
  abbrev pub leaving : State A → Event A → List (Task A)
  leaving s fetches =
      take_while (cancelled s.ctxs) s.queue.tasks ++ delivered (fetch s.ctxs s.queue).1
  leaving s _ = []

  unfoldable pub all_entering : State A → List (Event A) → List (Task A)
  all_entering s [] = []
  all_entering s (e ∷ es) = entering s e ++ all_entering (step s e) es

  unfoldable pub all_leaving : State A → List (Event A) → List (Task A)
  all_leaving s [] = []
  all_leaving s (e ∷ es) = leaving s e ++ all_leaving (step s e) es

  -- The tasks that `Get` hands over during a history.
  unfoldable pub handed_over : State A → List (Event A) → List (Task A)
  handed_over s [] = []
  handed_over s (fetches ∷ es) =
      delivered (fetch s.ctxs s.queue).1 ++ handed_over (step s fetches) es
  handed_over s (e ∷ es) = handed_over (step s e) es

  -- The queued task with an ID.
  unfoldable pub find : String → List (Task A) → Option (Task A)
  find k [] = none
  find k (t ∷ ts) = if str_eq t.id k then some t else find k ts
