-- ===== src/Queue/Invariant.antt =====
-- What holds of the queue of pkg/queue/queue.go between two calls: its list and its two maps tell
-- the same story about every task ID.
use save_any_bot.Prelude.{
  ◌≡◌, refl, ◌⊎◌, inl, inr, Bool, true, false, String, Option, none, some, List, [], ◌∷◌, ◌++◌,
  if◌then◌else◌, get, put, delete, get-put, get-delete, str_eq, str_eq_iff, arith, Bool-cases,
}
use save_any_bot.Queue.{
  Task, TaskQueue, Contexts, QueueError, already_exists, has_been_cancelled, queue_is_closed,
  cancelled, new_task_queue, add, add_new, get_from, fetch, done, close,
}
use save_any_bot.Queue.Reference.{
  State, Event, adds, fetches, dones, cancels, closes, expires, step, run, find,
}

module _ {ℓ} {A : Type ℓ} where
  abbrev pub or_else : Option (Task A) → Option (Task A) → Option (Task A)
  or_else (some t) o = some t
  or_else none o = o

  abbrev pub Distinct : List (Task A) → Type ℓ
  Distinct [] = Unit
  Distinct (t ∷ ts) = (find t.id ts ≡ none) × Distinct ts

  -- `taskMap` holds just the queued and the running tasks, each under its own ID; no two queued
  -- tasks share an ID, and none that is queued is running.
  pub record Inv (q : TaskQueue A) : Type ℓ where
    pub mapped :
        (k : String) → get k q.task_map ≡ or_else (find k q.tasks) (get k q.running_task_map)
    pub distinct : Distinct q.tasks
    pub apart : (k : String) → (find k q.tasks ≡ none) ⊎ (get k q.running_task_map ≡ none)
    pub keyed : (k : String) (t : Task A) → get k q.running_task_map ≡ some t → t.id ≡ k

  pub new_task_queue-Inv : Inv (new_task_queue {A = A})
  unfolding new_task_queue find get
  new_task_queue-Inv = record {
    mapped = λ k. refl;
    distinct = tt;
    apart = λ k. inl refl;
    keyed = λ k t e. cc;
  }

  find-append :
      (k : String) (ts : List (Task A)) (t : Task A)
      → find k (ts ++ t ∷ []) ≡ or_else (find k ts) (if str_eq t.id k then some t else none)
  unfolding find
  find-append k [] t = refl
  find-append k (u ∷ ts) t = ground (arith, find-append k ts t)

  Distinct-append :
      (ts : List (Task A)) (t : Task A)
      → Distinct ts
      → find t.id ts ≡ none
      → Distinct (ts ++ t ∷ [])
  unfolding find
  Distinct-append [] t d e = (refl, tt)
  Distinct-append (u ∷ ts) t d e = ground (
    arith,
    find-append u.id ts t,
    str_eq_iff u.id t.id,
    str_eq_iff t.id u.id,
    Distinct-append ts t d.1,
  )

  enqueue-Inv :
      (q : TaskQueue A) (t : Task A)
      → Inv q
      → get t.id q.task_map ≡ none
      → Inv (record q { tasks = q.tasks ++ t ∷ []; task_map = put t.id t q.task_map })
  enqueue-Inv q t v e = record {
    mapped = λ k. ground (
      arith,
      v.mapped k,
      v.mapped t.id,
      v.apart k,
      get-put k t.id t q.task_map,
      find-append k q.tasks t,
      str_eq_iff t.id k,
    );
    distinct = Distinct-append q.tasks t v.distinct (ground (arith, v.mapped t.id));
    apart =
        λ k. ground (arith, v.mapped t.id, v.apart k, find-append k q.tasks t, str_eq_iff t.id k);
    keyed = v.keyed;
  }

  skip-Inv :
      (q : TaskQueue A) (t : Task A) (ts : List (Task A))
      → Inv (record q { tasks = t ∷ ts })
      → Inv (record q { tasks = ts; task_map = delete t.id q.task_map })
  unfolding find
  skip-Inv q t ts v = record {
    mapped = λ k.
        ground (
          arith,
          v.mapped k,
          v.apart k,
          v.distinct,
          get-delete k t.id q.task_map,
          str_eq_iff t.id k,
        );
    distinct = v.distinct.1;
    apart = λ k. ground (arith, v.apart k);
    keyed = v.keyed;
  }

  deliver-Inv :
      (q : TaskQueue A) (t : Task A) (ts : List (Task A))
      → Inv (record q { tasks = t ∷ ts })
      → Inv (record q { tasks = ts; running_task_map = put t.id t q.running_task_map })
  unfolding find
  deliver-Inv q t ts v = record {
    mapped = λ k. ground (
      arith,
      v.mapped k,
      v.apart k,
      v.distinct,
      get-put k t.id t q.running_task_map,
      str_eq_iff t.id k,
    );
    distinct = v.distinct.1;
    apart = λ k.
        ground
          (arith, v.apart k, v.distinct, get-put k t.id t q.running_task_map, str_eq_iff t.id k);
    keyed = λ k u e.
        ground (arith, v.keyed k u, get-put k t.id t q.running_task_map, str_eq_iff t.id k);
  }

  get_from-Inv :
      (ctxs : Contexts) (q : TaskQueue A) (ts : List (Task A))
      → Inv (record q { tasks = ts })
      → Inv (get_from ctxs q ts).0
  unfolding get_from
  get_from-Inv ctxs q [] v = v
  get_from-Inv ctxs q (t ∷ ts) v = elim (Bool-cases (cancelled ctxs t)) [
    | inl e ↦
        rw (e, get_from)
          (get_from-Inv ctxs (record q { task_map = delete t.id q.task_map }) ts
            (skip-Inv q t ts v))
    | inr e ↦ rw (e, get_from) (deliver-Inv q t ts v)
  ]

  done-Inv : (q : TaskQueue A) (id : String) → find id q.tasks ≡ none → Inv q → Inv (done q id)
  unfolding done
  done-Inv q id e v = record {
    mapped = λ k. ground (
      arith,
      v.mapped k,
      get-delete k id q.task_map,
      get-delete k id q.running_task_map,
      str_eq_iff id k,
    );
    distinct = v.distinct;
    apart = λ k. ground (arith, v.apart k, get-delete k id q.running_task_map);
    keyed = λ k u h. ground (arith, v.keyed k u, get-delete k id q.running_task_map);
  }

  add_new-Inv :
      (q : TaskQueue A) (t : Task A) (o : Option (Task A)) (b : Bool)
      → get t.id q.task_map ≡ o
      → Inv q
      → Inv (add_new q t o b).0
  unfolding add_new
  add_new-Inv q t (some u) b e v = v
  add_new-Inv q t none true e v = v
  add_new-Inv q t none false e v = enqueue-Inv q t v e

  if-Inv :
      (c : Bool) (r u : TaskQueue A × Option QueueError)
      → Inv r.0
      → Inv u.0
      → Inv (if c then r else u).0
  if-Inv true r u v w = v
  if-Inv false r u v w = w

  add-Inv : (ctxs : Contexts) (q : TaskQueue A) (t : Task A) → Inv q → Inv (add ctxs q t).0
  unfolding add
  add-Inv ctxs q t v =
      if-Inv q.closed _ _ v (add_new-Inv q t (get t.id q.task_map) (cancelled ctxs t) refl v)

  -- `Done` is for a task that `Get` handed over: its ID is not queued.
  abbrev pub Allowed : State A → Event A → Type ℓ
  Allowed s (dones id) = find id s.queue.tasks ≡ none
  Allowed s _ = Unit

  abbrev pub AllAllowed : State A → List (Event A) → Type ℓ
  AllAllowed s [] = Unit
  AllAllowed s (e ∷ es) = Allowed s e × AllAllowed (step s e) es

  close-Inv : (q : TaskQueue A) → Inv q → Inv (close q)
  unfolding close
  close-Inv q v = record {
    mapped = v.mapped;
    distinct = v.distinct;
    apart = v.apart;
    keyed = v.keyed;
  }

  step-Inv : (s : State A) (e : Event A) → Allowed s e → Inv s.queue → Inv (step s e).queue
  unfolding step fetch
  step-Inv s (adds t) a v = add-Inv s.ctxs s.queue t v
  step-Inv s fetches a v = get_from-Inv s.ctxs s.queue s.queue.tasks v
  step-Inv s (dones id) a v = done-Inv s.queue id a v
  step-Inv s (cancels id) a v = v
  step-Inv s closes a v = close-Inv s.queue v
  step-Inv s (expires ref) a v = v

  -- The invariant holds after every history of events, cancellations at any moment included, in
  -- which `Done` is called for no ID that is still queued.
  pub run-Inv :
      (s : State A) (es : List (Event A)) → Inv s.queue → AllAllowed s es → Inv (run s es).queue
  unfolding run
  run-Inv s [] v a = v
  run-Inv s (e ∷ es) v a = run-Inv (step s e) es (step-Inv s e a.0 v) a.1

  -- What `Add` answers on a queue where the invariant holds: it takes the task and puts it last
  -- exactly when the queue is open, no queued or running task has its ID, and it is not cancelled;
  -- each refusal names the first of these that fails and leaves the queue as it was.
  pub add-outcome :
      (ctxs : Contexts) (q : TaskQueue A) (t : Task A)
      → Inv q
      → add ctxs q t ≡ (
          if q.closed
          then (q, some queue_is_closed)
          else elim (or_else (find t.id q.tasks) (get t.id q.running_task_map)) [
            | some _ ↦ (q, some (already_exists t.id))
            | none ↦ if cancelled ctxs t then (q, some (has_been_cancelled t.id)) else (
              record q { tasks = q.tasks ++ t ∷ []; task_map = put t.id t q.task_map },
              none,
            )
          ])
  unfolding add add_new
  add-outcome ctxs q t v = rw (v.mapped t.id) (ground arith)
