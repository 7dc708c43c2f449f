-- ===== src/Factory/Outcome.antt =====
-- What a request of api/factory.go leaves in the store of the records and in the queue.
use save_any_bot.Prelude.{
  Checked, ok, refused, ℕ, ◌≡◌, refl, ap, sym, subst, ◌∙◌, Bool, true, false, String, Option, none,
  some, [], ◌∷◌, ◌++◌, str_eq, str_eq_refl, if◌then◌else◌, get, put, get-put, get-delete, arith,
  inl, inr, ◌⊎◌,
}
use save_any_bot.TaskEvent.{Event, source_api, phase_queued, lifecycle_event}
use save_any_bot.Queue.{
  Task, Contexts, TaskQueue, QueueError, queue_is_closed, already_exists, has_been_cancelled,
  new_task, add, add_new, cancelled,
}
use save_any_bot.Core.{Executable, add_task}
use save_any_bot.Progress.{
  TaskProgressInfo, queued, ProgressStore, fresh_info, register_task, delete_task, store_emit,
}
use save_any_bot.Progress.Store.{follow, get-store_emit}
use save_any_bot.Factory.{
  CreateTaskRequest, CreateTaskResponse, Outside, Prepared, prepare, Server, observe, after_add,
  register_and_enqueue_task, respond, executable, after_prepare, create_task,
}

module _ {ℓ} {A : Type ℓ} where
  -- A task that is not taken leaves the queue; one that is taken is the last.
  add-cases :
      (ctxs : Contexts) (q : TaskQueue A) (t : Task A)
      → ((q' : TaskQueue A) × (add ctxs q t ≡ (q', none)) × (q'.tasks ≡ q.tasks ++ t ∷ []))
        ⊎ ((e : QueueError) × (add ctxs q t ≡ (q, some e)))
  unfolding add
  add-cases ctxs q t = either q.closed (get t.id q.task_map) (cancelled ctxs t)
    where
      either :
          (closed : Bool) (o : Option (Task A)) (c : Bool)
          → let r : TaskQueue A × Option QueueError =
              if closed then (q, some queue_is_closed) else add_new q t o c in
            ((q' : TaskQueue A) × (r ≡ (q', none)) × (q'.tasks ≡ q.tasks ++ t ∷ []))
            ⊎ ((e : QueueError) × (r ≡ (q, some e)))
      either true o c = inr (queue_is_closed, refl)
      either false (some x) c = unfold add_new in inr (already_exists t.id, refl)
      either false none true = unfold add_new in inr (has_been_cancelled t.id, refl)
      either false none false = unfold add_new in inl (_, refl, refl)

-- The records of the other tasks are as they were.
abbrev pub Others : String → ProgressStore → ProgressStore → Type 0
Others id s t = (j : String) → str_eq id j ≡ false → get j t.tasks ≡ get j s.tasks

pub record Refused (id : String) (s t : Server) : Type 0 where
  pub same_queue : t.queue ≡ s.queue
  pub others : Others id s.store t.store
  pub own : (get id t.store.tasks ≡ get id s.store.tasks) ⊎ (get id t.store.tasks ≡ none)

pub record Accepted (id webhook : String) (s t : Server) : Type 0 where
  pub task : Task Executable
  pub last : t.queue.tasks ≡ s.queue.tasks ++ task ∷ []
  pub task_id : task.id ≡ id
  pub info : TaskProgressInfo
  pub shown : get id t.store.tasks ≡ some info
  pub status : info.status ≡ queued
  pub notifies : info.webhook ≡ webhook
  pub source : info.source ≡ source_api
  pub others : Others id s.store t.store

-- How a request ends, by its answer.
abbrev pub Ends : String → String → Server → Server × Checked CreateTaskResponse → Type 0
Ends id webhook s (t, refused e) = Refused id s t
Ends id webhook s (t, ok response) = Accepted id webhook s t × (response.task_id ≡ id)

unchanged-Refused : (id : String) (s : Server) → Refused id s s
unchanged-Refused id s = record { same_queue = refl; others = λ j n. refl; own = inl refl }

taken_back :
    (s : Server) (exe : Executable) (storage path webhook : String) (now : ℕ)
    → Refused exe.task_id s (record {
      store =
          delete_task
            (register_task s.store exe.task_id exe.type storage path exe.title webhook now)
            exe.task_id;
      queue = s.queue;
    })
unfolding delete_task register_task
taken_back s exe storage path webhook now =
    let info = fresh_info exe.task_id exe.type storage path exe.title webhook source_api now in
    let m = put exe.task_id info s.store.tasks in
    record {
      same_queue = refl;
      others = λ j n.
          ground (arith, get-delete j exe.task_id m, get-put j exe.task_id info s.store.tasks, n);
      own = inr (ground (arith, get-delete exe.task_id exe.task_id m, str_eq_refl exe.task_id));
    }

-- The event of a task that was just queued leaves its record.
queued_info :
    (s : Server) (exe : Executable) (storage path webhook : String) (now : ℕ) (j : String)
    → let store = register_task s.store exe.task_id exe.type storage path exe.title webhook now in
      let e : Event = lifecycle_event exe.task_id exe.type exe.title source_api phase_queued none in
      get j (store_emit store e now).0.tasks ≡ (
        if str_eq exe.task_id j
        then some (fresh_info exe.task_id exe.type storage path exe.title webhook source_api now)
        else get j s.store.tasks)
unfolding register_task follow
queued_info s exe storage path webhook now j =
    let info = fresh_info exe.task_id exe.type storage path exe.title webhook source_api now in
    let store = register_task s.store exe.task_id exe.type storage path exe.title webhook now in
    let e : Event = lifecycle_event exe.task_id exe.type exe.title source_api phase_queued none in
    get-store_emit store e now j ∙ go (str_eq exe.task_id j) refl
  where
    go :
        (b : Bool)
        → str_eq exe.task_id j ≡ b
        → let info =
            fresh_info exe.task_id exe.type storage path exe.title webhook source_api now in
          let store =
            register_task s.store exe.task_id exe.type storage path exe.title webhook now in
          let e : Event =
            lifecycle_event exe.task_id exe.type exe.title source_api phase_queued none in
          (if b then some (follow (get j store.tasks) e now) else get j store.tasks)
          ≡ (if b then some info else get j s.store.tasks)
    go true q = ground (
      arith,
      q,
      get-put j exe.task_id
          (fresh_info exe.task_id exe.type storage path exe.title webhook source_api now)
          s.store.tasks,
    )
    go false q = ground (
      arith,
      q,
      get-put j exe.task_id
          (fresh_info exe.task_id exe.type storage path exe.title webhook source_api now)
          s.store.tasks,
    )

queued_event : Executable → Event
queued_event exe = lifecycle_event exe.task_id exe.type exe.title source_api phase_queued none

-- The last part of `AddTask`.
finish :
    Executable
    → TaskQueue Executable × Option QueueError
    → TaskQueue Executable × Option QueueError × Option Event
unfolding queued_event
finish exe (q, some e) = (q, some e, none)
finish exe (q, none) = (q, none, some (queued_event exe))

finish-add :
    (ctxs : Contexts) (q : TaskQueue Executable) (exe : Executable) (ref now : ℕ)
    → add_task ctxs q exe ref now source_api
      ≡ finish exe (add ctxs q (new_task ref exe.task_id exe.title exe now))
unfolding add_task queued_event
finish-add ctxs q exe ref now = go (add ctxs q (new_task ref exe.task_id exe.title exe now))
  where
    go :
        (r : TaskQueue Executable × Option QueueError)
        → Path
            (TaskQueue Executable × Option QueueError × Option Event)
            (elim r.1 [
              | some e ↦ (r.0, some e, none)
              | none ↦ (r.0, none, some (queued_event exe))
            ])
            (finish exe r)
    go (q, some e) = unfold finish in refl
    go (q, none) = unfold finish in refl

abbrev Cases : Server → Executable → String → Server × Option QueueError → Type 0
Cases s exe webhook r =
    ((r.1 ≡ none) × Accepted exe.task_id webhook s r.0)
    ⊎ ((e : QueueError) × (r.1 ≡ some e) × Refused exe.task_id s r.0)

register_and_enqueue_task_lem :
    (ctxs : Contexts) (ref now : ℕ) (s : Server) (exe : Executable) (storage path webhook : String)
    → Cases s exe webhook (register_and_enqueue_task ctxs ref now s exe storage path webhook)
unfolding register_and_enqueue_task after_add observe new_task finish queued_event
register_and_enqueue_task_lem ctxs ref now s exe storage path webhook =
    let t = new_task ref exe.task_id exe.title exe now in
    let registered =
      register_task s.store exe.task_id exe.type storage path exe.title webhook now in
    let fin : add_task ctxs s.queue exe ref now source_api ≡ finish exe (add ctxs s.queue t) =
      finish-add ctxs s.queue exe ref now in
    elim (add-cases ctxs s.queue t) [
      | inl (q, p, l) ↦
          subst (Cases s exe webhook)
            (sym (ap (after_add registered exe.task_id now) (fin ∙ ap (finish exe) p)))
            (inl (
              refl,
              record {
                task = t;
                last = l;
                task_id = refl;
                info =
                    fresh_info exe.task_id exe.type storage path exe.title webhook source_api now;
                shown =
                    queued_info s exe storage path webhook now exe.task_id
                    ∙ ap
                        (λ b.
                          if b
                          then some (
                              fresh_info exe.task_id exe.type storage path exe.title webhook
                                source_api now)
                          else get exe.task_id s.store.tasks)
                        (str_eq_refl exe.task_id);
                status = unfold fresh_info in refl;
                notifies = unfold fresh_info in refl;
                source = unfold fresh_info in refl;
                others = λ j n.
                    queued_info s exe storage path webhook now j
                    ∙ ap
                        (λ b.
                          if b
                          then some (
                              fresh_info exe.task_id exe.type storage path exe.title webhook
                                source_api now)
                          else get j s.store.tasks)
                        n;
              },
            ))
      | inr (e, p) ↦
          subst (Cases s exe webhook)
            (sym (ap (after_add registered exe.task_id now) (fin ∙ ap (finish exe) p)))
            (inr (e, refl, taken_back s exe storage path webhook now))
    ]

module _ {ℓ} {F : Type ℓ} (out : Outside F) where
  after_prepare-Ends :
      (ctxs : Contexts) (ref now : ℕ) (id : String) (s : Server) (req : CreateTaskRequest)
      (c : Checked (Prepared F))
      → Ends id req.webhook s (after_prepare out ctxs ref now id s req c)
  unfolding after_prepare executable respond
  after_prepare-Ends ctxs ref now id s req (refused e) = unchanged-Refused id s
  after_prepare-Ends ctxs ref now id s req (ok p) =
      let exe = executable out id req.type p.task in
      let r = register_and_enqueue_task ctxs ref now s exe p.storage p.path req.webhook in
      elim (register_and_enqueue_task_lem ctxs ref now s exe p.storage p.path req.webhook) [
        | inl (e, a) ↦
            subst (λ o. Ends id req.webhook s (respond id req.type now (r.0, o))) (sym e) (a, refl)
        | inr (x, e, f) ↦
            subst (λ o. Ends id req.webhook s (respond id req.type now (r.0, o))) (sym e) f
      ]

  -- A request that is answered with an error, at whatever point it failed, leaves the queue as it was
  -- and no record of its task that was not there before; one that is answered with a task has put it last in
  -- the queue, under the ID of the answer, and its record shows it as queued by the interface, with
  -- the webhook of the request. Either way the records of the other tasks are as they were.
  pub create_task-Ends :
      (ctxs : Contexts) (ref now : ℕ) (id : String) (s : Server) (req : CreateTaskRequest)
      → Ends id req.webhook s (create_task out ctxs ref now id s req)
  unfolding create_task
  create_task-Ends ctxs ref now id s req = either (out.has_storage req.storage)
    where
      either :
          (b : Bool)
          → Ends id req.webhook s (
              if b
              then after_prepare out ctxs ref now id s req (prepare out req.type req)
              else (s, refused "storage not found"))
      either true = after_prepare-Ends ctxs ref now id s req (prepare out req.type req)
      either false = unchanged-Refused id s
