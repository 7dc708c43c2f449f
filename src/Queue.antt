-- ===== src/Queue.antt =====
-- pkg/queue/queue.go and pkg/queue/task.go: the task queue that the workers share.
-- A task is a pointer to a struct whose context can be cancelled by others at any time, so a task
-- carries the identity `ref` of its context, and the contexts' state is a store of its own. Every
-- method holds the queue's lock for its whole body and is one function here. `Task.element` is
-- written by the source and never read, and is left out.
pub mod Reference
pub mod Invariant
pub mod Order
pub mod Cancellation
mod Examples
use save_any_bot.Prelude.{
  ℕ, suc, ◌+◌, ◌≡◌, Bool, true, false, not, String, Option, none, some, List, [], ◌∷◌, ◌++◌, ◌==◌,
  if◌then◌else◌, length, keep, StrMap, get, put, delete, arith, refl,
}

-- `ctx.Done()` of each context, by its identity: closed or still open.
abbrev pub Contexts : Type 0
Contexts = ℕ → Bool

pub record Task {ℓ} (A : Type ℓ) : Type ℓ where
  pub id : String
  pub title : String
  pub payload : A
  pub ref : ℕ
  pub created : ℕ

pub record TaskInfo : Type 0 where
  pub id : String
  pub title : String
  pub created : ℕ
  pub is_cancelled : Bool

pub record TaskQueue {ℓ} (A : Type ℓ) : Type ℓ where
  pub tasks : List (Task A)
  pub task_map : StrMap (Task A)
  pub running_task_map : StrMap (Task A)
  pub closed : Bool

pub data QueueError : Type 0 where
  queue_is_closed : QueueError
  already_exists : String → QueueError
  has_been_cancelled : String → QueueError
  does_not_exist : String → QueueError

-- What one pass of `Get` over the queue ends in; `waits` is `cond.Wait()`.
pub data Fetch {ℓ} (A : Type ℓ) : Type ℓ where
  fetched : Task A → Fetch A
  waits : Fetch A
  closed_and_empty : Fetch A

-- The context of a new task is fresh and open: `context.WithCancel`.
unfoldable pub new_task {ℓ} : {A : Type ℓ} → ℕ → String → String → A → ℕ → Task A
new_task ref id title payload now = record {
  id = id;
  title = title;
  payload = payload;
  ref = ref;
  created = now;
}

unfoldable pub cancelled {ℓ} : {A : Type ℓ} → Contexts → Task A → Bool
cancelled ctxs t = ctxs t.ref

-- `t.cancel()`.
unfoldable pub cancel : Contexts → ℕ → Contexts
cancel ctxs ref r = if ref == r then true else ctxs r

module _ {ℓ} {A : Type ℓ} where
  unfoldable pub new_task_queue : TaskQueue A
  new_task_queue = record { tasks = []; task_map = []; running_task_map = []; closed = false }

  unfoldable pub add_new :
      TaskQueue A → Task A → Option (Task A) → Bool → TaskQueue A × Option QueueError
  add_new q t (some _) is_cancelled = (q, some (already_exists t.id))
  add_new q t none true = (q, some (has_been_cancelled t.id))
  add_new q t none false =
      (record q { tasks = q.tasks ++ t ∷ []; task_map = put t.id t q.task_map }, none)

  unfoldable pub add : Contexts → TaskQueue A → Task A → TaskQueue A × Option QueueError
  unfolding add_new cancelled
  add ctxs q t =
      if q.closed
      then (q, some queue_is_closed)
      else add_new q t (get t.id q.task_map) (cancelled ctxs t)

  -- The inner loop of `Get`: it skips cancelled tasks and releases their IDs.
  unfoldable pub get_from : Contexts → TaskQueue A → List (Task A) → TaskQueue A × Fetch A
  unfolding cancelled
  get_from ctxs q [] = (record q { tasks = [] }, if q.closed then closed_and_empty else waits)
  get_from ctxs q (t ∷ ts) =
      let skip = get_from ctxs (record q { task_map = delete t.id q.task_map }) ts in
      if cancelled ctxs t
      then skip
      else (record q { tasks = ts; running_task_map = put t.id t q.running_task_map }, fetched t)

  -- One pass of `Get` with the lock held, from its start or from a wake-up to the next wait.
  unfoldable pub fetch : Contexts → TaskQueue A → TaskQueue A × Fetch A
  unfolding get_from
  fetch ctxs q = get_from ctxs q q.tasks

  unfoldable pub done : TaskQueue A → String → TaskQueue A
  done q id = record q {
    task_map = delete id q.task_map;
    running_task_map = delete id q.running_task_map;
  }

  unfoldable pub queue_length : TaskQueue A → ℕ
  queue_length q = length q.tasks

  count_active : Contexts → ℕ → List (Task A) → ℕ
  unfolding cancelled
  count_active ctxs count [] = count
  count_active ctxs count (t ∷ ts) =
      count_active ctxs (if not (cancelled ctxs t) then count + 1 else count) ts

  unfoldable pub active_length : Contexts → TaskQueue A → ℕ
  unfolding count_active
  active_length ctxs q = count_active ctxs 0 q.tasks

  unfoldable pub info_of : Contexts → Task A → TaskInfo
  unfolding cancelled
  info_of ctxs t = record {
    id = t.id;
    title = t.title;
    created = t.created;
    is_cancelled = cancelled ctxs t;
  }

  running_infos : Contexts → StrMap (Task A) → List TaskInfo
  unfolding cancelled info_of
  running_infos ctxs [] = []
  running_infos ctxs ((k, t) ∷ m) =
      let rest = running_infos ctxs m in if cancelled ctxs t then rest else info_of ctxs t ∷ rest

  -- Go walks the map in an unspecified order; the order here is one of them.
  unfoldable pub running_tasks : Contexts → TaskQueue A → List TaskInfo
  unfolding running_infos
  running_tasks ctxs q = running_infos ctxs q.running_task_map

  queued_infos : Contexts → List (Task A) → List TaskInfo
  unfolding cancelled info_of
  queued_infos ctxs [] = []
  queued_infos ctxs (t ∷ ts) =
      let rest = queued_infos ctxs ts in
      if not (cancelled ctxs t) then info_of ctxs t ∷ rest else rest

  unfoldable pub queued_tasks : Contexts → TaskQueue A → List TaskInfo
  unfolding queued_infos
  queued_tasks ctxs q = queued_infos ctxs q.tasks

  find_task : TaskQueue A → String → Option (Task A) → Option (Task A)
  find_task q id (some t) = some t
  find_task q id none = get id q.running_task_map

  cancel_found : Contexts → String → Option (Task A) → Contexts × Option QueueError
  unfolding cancel
  cancel_found ctxs id none = (ctxs, some (does_not_exist id))
  cancel_found ctxs id (some t) = (cancel ctxs t.ref, none)

  -- The queue is left as it is: only the task's context changes.
  unfoldable pub cancel_task : Contexts → TaskQueue A → String → Contexts × Option QueueError
  unfolding find_task cancel_found
  cancel_task ctxs q id = cancel_found ctxs id (find_task q id (get id q.task_map))

  unfoldable pub close : TaskQueue A → TaskQueue A
  close q = record q { closed = true }
