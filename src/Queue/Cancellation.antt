-- ===== src/Queue/Cancellation.antt =====
-- CancelTask of pkg/queue/queue.go: a cancelled task never reaches a worker any more.
use save_any_bot.Prelude.{
  ℕ, ◌≡◌, ap, ◌≢◌, Bool, true, String, some, List, [], ◌∷◌, get, arith, All, All-append,
}
use save_any_bot.Queue.{
  Task, TaskQueue, Contexts, Fetch, fetched, waits, closed_and_empty, cancelled, cancel, fetch,
  cancel_task,
}
use save_any_bot.Queue.Reference.{
  State, Event, adds, fetches, dones, cancels, closes, expires, step, delivered, handed_over,
}
use save_any_bot.Queue.Order.{fetch-Answers, Answers}

cancel_mono : (ctxs : Contexts) (r ref : ℕ) → ctxs r ≡ true → cancel ctxs ref r ≡ true
unfolding cancel
cancel_mono ctxs r ref h = ground arith

module _ {ℓ} {A : Type ℓ} where
  cancel_task_mono :
      (ctxs : Contexts) (q : TaskQueue A) (id : String) (r : ℕ)
      → ctxs r ≡ true
      → (cancel_task ctxs q id).0 r ≡ true
  unfolding cancel_task cancel
  cancel_task_mono ctxs q id r h = ground arith

  step_mono : (s : State A) (e : Event A) (r : ℕ) → s.ctxs r ≡ true → (step s e).ctxs r ≡ true
  unfolding step
  step_mono s (adds t) r h = h
  step_mono s fetches r h = h
  step_mono s (dones id) r h = h
  step_mono s (cancels id) r h = cancel_task_mono s.ctxs s.queue id r h
  step_mono s closes r h = h
  step_mono s (expires ref) r h = cancel_mono s.ctxs r ref h

  fetched-open :
      (ctxs : Contexts) (r n : ℕ) (b : Bool) (a : TaskQueue A × Fetch A)
      → ctxs r ≡ true
      → Answers ctxs n b a
      → All (λ (t : Task A). t.ref ≢ r) (delivered a.1)
  unfolding cancelled
  fetched-open ctxs r n b (q, fetched t) h v = (λ e. cc (ap ctxs e), tt)
  fetched-open ctxs r n b (q, waits) h v = tt
  fetched-open ctxs r n b (q, closed_and_empty) h v = tt

  handed_over-open :
      (s : State A) (r : ℕ) (es : List (Event A))
      → s.ctxs r ≡ true
      → All (λ (t : Task A). t.ref ≢ r) (handed_over s es)
  unfolding handed_over
  handed_over-open s r [] h = tt
  handed_over-open s r (fetches ∷ es) h =
      All-append _ (delivered (fetch s.ctxs s.queue).1) _
        (fetched-open s.ctxs r _ _ (fetch s.ctxs s.queue) h (fetch-Answers s.ctxs s.queue))
        (handed_over-open (step s fetches) r es (step_mono s fetches r h))
  handed_over-open s r (adds t ∷ es) h =
      handed_over-open (step s (adds t)) r es (step_mono s (adds t) r h)
  handed_over-open s r (dones id ∷ es) h =
      handed_over-open (step s (dones id)) r es (step_mono s (dones id) r h)
  handed_over-open s r (cancels id ∷ es) h =
      handed_over-open (step s (cancels id)) r es (step_mono s (cancels id) r h)
  handed_over-open s r (closes ∷ es) h =
      handed_over-open (step s closes) r es (step_mono s closes r h)
  handed_over-open s r (expires ref ∷ es) h =
      handed_over-open (step s (expires ref)) r es (step_mono s (expires ref) r h)

  cancel_task-hit :
      (ctxs : Contexts) (q : TaskQueue A) (id : String) (t : Task A)
      → get id q.task_map ≡ some t
      → (cancel_task ctxs q id).0 t.ref ≡ true
  unfolding cancel_task cancel
  cancel_task-hit ctxs q id t h = ground arith

  -- After `CancelTask` with the ID of a queued or running task, no history of events makes `Get`
  -- hand over a task with that task's context.
  pub cancel_task-handed_over :
      (s : State A) (id : String) (t : Task A) (es : List (Event A))
      → get id s.queue.task_map ≡ some t
      → All (λ (u : Task A). u.ref ≢ t.ref) (handed_over (step s (cancels id)) es)
  unfolding step
  cancel_task-handed_over s id t es h =
      handed_over-open (step s (cancels id)) t.ref es (cancel_task-hit s.ctxs s.queue id t h)
