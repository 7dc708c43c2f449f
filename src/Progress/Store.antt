-- ===== src/Progress/Store.antt =====
-- The store of api/progress.go: each record follows its own task, and the cleanup.
use save_any_bot.Prelude.{
  ℕ, ◌≡◌, refl, String, Option, none, some, List, [], ◌∷◌, str_eq, str_eq_iff, if◌then◌else◌, arith,
  StrMap, get, put, get-put, get-delete, keep, UniqueKeys, put-UniqueKeys, delete-UniqueKeys,
}
use save_any_bot.TaskEvent.{Event}
use save_any_bot.Progress.{
  TaskProgressInfo, ProgressStore, fresh_info, or_new, is_queued_phase, emit, store_emit, get_task,
  register_task, delete_task, expire, cleanup_expired, is_stale,
}

unfoldable pub store_emit_all : ProgressStore → List (Event × ℕ) → ProgressStore
store_emit_all s [] = s
store_emit_all s ((e, now) ∷ es) = store_emit_all (store_emit s e now).0 es

-- What one event of its task makes of a record that may not exist yet.
unfoldable pub follow : Option TaskProgressInfo → Event → ℕ → TaskProgressInfo
unfolding fresh_info
follow o e now =
    let info = or_new o (fresh_info e.task_id e.task_type "" "" e.title "" e.source now) in
    if is_queued_phase e.phase then info else (emit info e now).0

unfoldable pub follow_all : Option TaskProgressInfo → List (Event × ℕ) → Option TaskProgressInfo
follow_all o [] = o
follow_all o ((e, now) ∷ es) = follow_all (some (follow o e now)) es

store_emit-put :
    (s : ProgressStore) (e : Event) (now : ℕ)
    → (store_emit s e now).0
      ≡ record s { tasks = put e.task_id (follow (get e.task_id s.tasks) e now) s.tasks }
unfolding store_emit follow
store_emit-put s e now = ground arith

pub get-store_emit :
    (s : ProgressStore) (e : Event) (now : ℕ) (id : String)
    → get id (store_emit s e now).0.tasks
      ≡ (if str_eq e.task_id id then some (follow (get id s.tasks) e now) else get id s.tasks)
get-store_emit s e now id = rw (store_emit-put s e now) (
    ground (
      arith,
      get-put id e.task_id (follow (get e.task_id s.tasks) e now) s.tasks,
      str_eq_iff e.task_id id,
    ))

-- The store keeps the tasks apart: after any interleaving of the events of all tasks, the record of
-- a task is what that task's own events, in their order, make of the record it had before.
pub store_emit_all-follow_all :
    (s : ProgressStore) (es : List (Event × ℕ)) (id : String)
    → get_task (store_emit_all s es) id
      ≡ follow_all (get_task s id) (keep (λ e. str_eq e.0.task_id id) es)
unfolding store_emit_all follow_all get_task
store_emit_all-follow_all s [] id = refl
store_emit_all-follow_all s ((e, now) ∷ es) id =
    ground
      (arith, get-store_emit s e now id, store_emit_all-follow_all (store_emit s e now).0 es id)

store_emit-UniqueKeys :
    (s : ProgressStore) (e : Event) (now : ℕ)
    → UniqueKeys s.tasks
    → UniqueKeys (store_emit s e now).0.tasks
store_emit-UniqueKeys s e now u =
    rw (store_emit-put s e now)
      (put-UniqueKeys e.task_id (follow (get e.task_id s.tasks) e now) s.tasks u)

abbrev pub kept : ℕ → ℕ → Option TaskProgressInfo → Option TaskProgressInfo
kept now retention none = none
kept now retention (some info) = if is_stale now retention info then none else some info

get-expire :
    (now retention : ℕ) (m : StrMap TaskProgressInfo) (id : String)
    → UniqueKeys m
    → get id (expire now retention m) ≡ kept now retention (get id m)
unfolding expire get
get-expire now retention [] id u = refl
get-expire now retention ((j, info) ∷ m) id u = ground (
  arith,
  get-expire now retention m id u.1,
  get-delete id j (expire now retention m),
  str_eq_iff j id,
)

expire-UniqueKeys :
    (now retention : ℕ) (m : StrMap TaskProgressInfo)
    → UniqueKeys m
    → UniqueKeys (expire now retention m)
unfolding expire
expire-UniqueKeys now retention [] u = tt
expire-UniqueKeys now retention ((j, info) ∷ m) u = ground (
  arith,
  expire-UniqueKeys now retention m u.1,
  delete-UniqueKeys j (expire now retention m),
  get-expire now retention m j u.1,
)

-- The calls that change the store: an event, a registration, a removal, a tick of the cleanup.
pub data Call : Type 0 where
  emits : Event → Call
  registers : String → String → String → String → String → String → Call
  removes : String → Call
  cleans : Call

unfoldable pub call : ProgressStore → Call → ℕ → ProgressStore
call s (emits e) now = (store_emit s e now).0
call s (registers id type storage path title webhook) now =
    register_task s id type storage path title webhook now
call s (removes id) now = delete_task s id
call s cleans now = cleanup_expired s now

unfoldable pub calls : ProgressStore → List (Call × ℕ) → ProgressStore
calls s [] = s
calls s ((c, now) ∷ cs) = calls (call s c now) cs

call-UniqueKeys :
    (s : ProgressStore) (c : Call) (now : ℕ) → UniqueKeys s.tasks → UniqueKeys (call s c now).tasks
unfolding call register_task delete_task cleanup_expired
call-UniqueKeys s (emits e) now u = store_emit-UniqueKeys s e now u
call-UniqueKeys s (registers id type storage path title webhook) now u =
    put-UniqueKeys id _ s.tasks u
call-UniqueKeys s (removes id) now u = delete-UniqueKeys id s.tasks u
call-UniqueKeys s cleans now u = expire-UniqueKeys now s.retention s.tasks u

calls-UniqueKeys :
    (s : ProgressStore) (cs : List (Call × ℕ)) → UniqueKeys s.tasks → UniqueKeys (calls s cs).tasks
unfolding calls
calls-UniqueKeys s [] u = u
calls-UniqueKeys s ((c, now) ∷ cs) u =
    calls-UniqueKeys (call s c now) cs (call-UniqueKeys s c now u)

-- After any history of calls that starts from a store with one record an ID, a cleanup drops the
-- records that ended, completed, failed or cancelled, longer ago than the retention time, and leaves
-- each other record, a queued or running one in particular, just as it was.
pub cleanup_expired-calls :
    (s : ProgressStore) (cs : List (Call × ℕ)) (now : ℕ) (id : String)
    → UniqueKeys s.tasks
    → get_task (cleanup_expired (calls s cs) now) id
      ≡ kept now (calls s cs).retention (get_task (calls s cs) id)
unfolding cleanup_expired get_task
cleanup_expired-calls s cs now id u =
    get-expire now (calls s cs).retention (calls s cs).tasks id (calls-UniqueKeys s cs u)
