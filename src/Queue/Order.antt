-- ===== src/Queue/Order.antt =====
-- The order and the outcome of Get in pkg/queue/queue.go.
use save_any_bot.Prelude.{
  ℕ, ◌+◌, ◌≡◌, refl, sym, ap, ◌∙◌, inl, inr, Bool, true, false, not, some, List, [], ◌∷◌, ◌++◌,
  append_assoc, append-nil, length, take_while, keep, get, delete, get-put_self, arith, Bool-cases,
  map,
}
use save_any_bot.Queue.{
  Task, TaskQueue, Contexts, Fetch, fetched, waits, closed_and_empty, cancelled, add, get_from,
  fetch, done, close, count_active, active_length, queued_tasks, queued_infos, info_of,
}
use save_any_bot.Queue.Reference.{
  State, Event, adds, fetches, dones, cancels, closes, expires, step, run, entering, leaving,
  delivered, all_entering, all_leaving,
}

module _ {ℓ} {A : Type ℓ} where
  get_from-order :
      (ctxs : Contexts) (q : TaskQueue A) (ts : List (Task A))
      → ts
        ≡ (take_while (cancelled ctxs) ts ++ delivered (get_from ctxs q ts).1)
          ++ (get_from ctxs q ts).0.tasks
  unfolding get_from
  get_from-order ctxs q [] = ground arith
  get_from-order ctxs q (t ∷ ts) =
      ground (arith, get_from-order ctxs (record q { task_map = delete t.id q.task_map }) ts)

  add-order :
      (ctxs : Contexts) (q : TaskQueue A) (t : Task A)
      → (add ctxs q t).0.tasks ≡ q.tasks ++ entering (record { queue = q; ctxs = ctxs }) (adds t)
  unfolding add
  add-order ctxs q t = ground (arith, append-nil q.tasks)

  step-order :
      (s : State A) (e : Event A)
      → s.queue.tasks ++ entering s e ≡ leaving s e ++ (step s e).queue.tasks
  unfolding step fetch done close
  step-order s (adds t) = sym (add-order s.ctxs s.queue t)
  step-order s fetches = append-nil s.queue.tasks ∙ get_from-order s.ctxs s.queue s.queue.tasks
  step-order s (dones id) = append-nil _
  step-order s (cancels id) = append-nil _
  step-order s closes = append-nil _
  step-order s (expires ref) = append-nil _

  -- First in, first out: over any history of events, from any state, the tasks queued at the start
  -- followed by those that `Add` took are those that `Get` took out, in that order, followed by
  -- those still queued at the end.
  pub run-order :
      (s : State A) (es : List (Event A))
      → s.queue.tasks ++ all_entering s es ≡ all_leaving s es ++ (run s es).queue.tasks
  unfolding run all_entering all_leaving
  run-order s [] = append-nil _
  run-order s (e ∷ es) =
      sym (append_assoc s.queue.tasks (entering s e) _)
      ∙ ap (λ l. l ++ all_entering (step s e) es) (step-order s e)
      ∙ append_assoc (leaving s e) _ _
      ∙ ap (◌++◌ (leaving s e)) (run-order (step s e) es)
      ∙ sym (append_assoc (leaving s e) _ _)

  count_active-add :
      (ctxs : Contexts) (n : ℕ) (ts : List (Task A))
      → count_active ctxs n ts ≡ n + count_active ctxs 0 ts
  unfolding count_active
  count_active-add ctxs n [] = omega arith
  count_active-add ctxs n (t ∷ ts) = ground (
    arith,
    count_active-add ctxs (n + 1) ts,
    count_active-add ctxs n ts,
    count_active-add ctxs 1 ts,
  )

  count_active-skip :
      (ctxs : Contexts) (t : Task A) (ts : List (Task A))
      → cancelled ctxs t ≡ true
      → count_active ctxs 0 (t ∷ ts) ≡ count_active ctxs 0 ts
  unfolding count_active
  count_active-skip ctxs t ts e = rw e

  count_active-take :
      (ctxs : Contexts) (t : Task A) (ts : List (Task A))
      → cancelled ctxs t ≡ false
      → count_active ctxs 0 (t ∷ ts) ≡ count_active ctxs 0 ts + 1
  unfolding count_active
  count_active-take ctxs t ts e = rw e (omega (arith, count_active-add ctxs 1 ts))

  -- What `Get` may answer where `n` tasks are active and the queue is closed or not: a task that is
  -- not cancelled and now runs, one active task fewer being left; or no task, with none active.
  abbrev pub Answers : Contexts → ℕ → Bool → TaskQueue A × Fetch A → Type ℓ
  Answers ctxs n is_closed (q', fetched t) =
      (n ≡ active_length ctxs q' + 1)
      × (cancelled ctxs t ≡ false)
      × (get t.id q'.running_task_map ≡ some t)
  Answers ctxs n is_closed (q', waits) = (n ≡ 0) × (is_closed ≡ false) × (q'.tasks ≡ [])
  Answers ctxs n is_closed (q', closed_and_empty) = (n ≡ 0) × (is_closed ≡ true) × (q'.tasks ≡ [])

  get_from-Answers :
      (ctxs : Contexts) (q : TaskQueue A) (ts : List (Task A))
      → Answers ctxs (count_active ctxs 0 ts) q.closed (get_from ctxs q ts)
  unfolding get_from active_length
  get_from-Answers ctxs q [] = elim (Bool-cases q.closed) [
    | inl e ↦ rw (e, get_from) (refl, refl, refl)
    | inr e ↦ rw (e, get_from) (refl, refl, refl)
  ]
  get_from-Answers ctxs q (t ∷ ts) = elim (Bool-cases (cancelled ctxs t)) [
    | inl e ↦ rw (count_active-skip ctxs t ts e) (
        rw (e, get_from)
          (get_from-Answers ctxs (record q { task_map = delete t.id q.task_map }) ts))
    | inr e ↦
        rw (count_active-take ctxs t ts e)
          (rw (e, get_from) (refl, e, get-put_self t.id t q.running_task_map))
  ]

  -- `Get` hands over a task exactly when `ActiveLength` is not 0, and that task is not cancelled, is
  -- now among the running ones and is counted no longer; with no active task it clears the queue,
  -- and then it waits if the queue is open and reports the end if it is closed.
  pub fetch-Answers :
      (ctxs : Contexts) (q : TaskQueue A)
      → Answers ctxs (active_length ctxs q) q.closed (fetch ctxs q)
  unfolding fetch active_length
  fetch-Answers ctxs q = get_from-Answers ctxs q q.tasks

  queued_infos-map :
      (ctxs : Contexts) (ts : List (Task A))
      → queued_infos ctxs ts ≡ map (info_of ctxs) (keep (λ t. not (cancelled ctxs t)) ts)
  unfolding queued_infos
  queued_infos-map ctxs [] = refl
  queued_infos-map ctxs (t ∷ ts) = ground (arith, queued_infos-map ctxs ts)

  length-queued_infos :
      (ctxs : Contexts) (ts : List (Task A))
      → length (queued_infos ctxs ts) ≡ count_active ctxs 0 ts
  unfolding queued_infos count_active
  length-queued_infos ctxs [] = refl
  length-queued_infos ctxs (t ∷ ts) =
      ground (arith, length-queued_infos ctxs ts, count_active-add ctxs 1 ts)

  -- `QueuedTasks` lists the tasks that are not cancelled, oldest first, and `ActiveLength` is their
  -- number.
  pub queued_tasks-active :
      (ctxs : Contexts) (q : TaskQueue A)
      → (queued_tasks ctxs q ≡ map (info_of ctxs) (keep (λ t. not (cancelled ctxs t)) q.tasks))
        × (active_length ctxs q ≡ length (queued_tasks ctxs q))
  unfolding queued_tasks active_length
  queued_tasks-active ctxs q =
      (queued_infos-map ctxs q.tasks, sym (length-queued_infos ctxs q.tasks))
