-- ===== src/Progress/Webhook.antt =====
-- The webhook of api/progress.go over all the events that one record receives, and the attempts of
-- SendWebhook in api/webhook.go. `post i` is the HTTP client's answer to attempt `i`.
use save_any_bot.Prelude.{
  String, ap, ◌∙◌, inl, inr, ℕ, suc, zero, ◌+◌, ◌*◌, ◌-◌, ◌≡◌, ◌≤◌, ◌<◌, refl, ◌⊎◌, Bool, true,
  false, ◌&&◌, ◌||◌, Option, none, some, List, [], ◌∷◌, ◌++◌, str_eq, ltb, leb, if◌then◌else◌,
  arith,
}
use save_any_bot.TaskEvent.{TaskError, phase_queued, phase_start, phase_progress, phase_done, Event}
use save_any_bot.Progress.{
  TaskStatus, completed, failed, cancelled, TaskProgressInfo, WebhookPayload, is_completed,
  is_failed, running, must_notify, emit, notify, Notice, create_webhook_payload,
}

-- What happens to one record: an event at a time, and a call that has a webhook to send, and that has
-- given up the lock, builds the payload.
pub data Move : Type 0 where
  arrives : Event → ℕ → Move
  builds : ℕ → Move

abbrev pub owes : List Notice → Option Notice → List Notice
owes ns none = ns
owes ns (some n) = ns ++ n ∷ []

-- The payloads that are handed to `SendWebhook`, with the webhooks that are still to be sent.
unfoldable pub run_moves : TaskProgressInfo → List Notice → List Move → List WebhookPayload
run_moves t ns [] = []
run_moves t ns (arrives e now ∷ ms) = run_moves (emit t e now).0 (owes ns (emit t e now).1) ms
run_moves t [] (builds now ∷ ms) = run_moves t [] ms
run_moves t (n ∷ ns) (builds now ∷ ms) = notify t n now ∷ run_moves t ns ms

-- The status that the end of a task leaves.
abbrev pub outcome : Option TaskError → TaskStatus
outcome none = completed
outcome (some err) = if err.is_canceled then cancelled else failed

abbrev pub is_final : TaskStatus → Bool
is_final s = is_completed s || is_failed s

abbrev pub ends : Event → Bool
ends e = elim e.phase [ phase_done ↦ is_final (outcome e.err) | _ ↦ false ]

-- The status of a record after an event.
abbrev pub next_status : TaskStatus → Event → TaskStatus
next_status s e = elim e.phase [
  | phase_queued ↦ s
  | phase_start ↦ running
  | phase_progress ↦ running
  | phase_done ↦ outcome e.err
]

abbrev pub text_of : Option TaskError → String
text_of none = ""
text_of (some e) = e.message

-- The payload that is built first after an end with this error, for a record with this status.
unfoldable pub first_build :
    TaskProgressInfo → TaskStatus → Option TaskError → List Move → List WebhookPayload
first_build t s err [] = []
first_build t s err (arrives e now ∷ ms) = first_build t (next_status s e) err ms
first_build t s err (builds now ∷ ms) =
    record {
      task_id = t.task_id;
      type = t.type;
      status = s;
      storage = t.storage;
      path = t.path;
      completed_at = if is_final s then some now else none;
      error = text_of err;
    }
    ∷ []

-- That for the first end that is not a cancellation.
unfoldable pub first_end : TaskProgressInfo → List Move → List WebhookPayload
unfolding first_build
first_end t [] = []
first_end t (builds now ∷ ms) = first_end t ms
first_end t (arrives e now ∷ ms) =
    let rest = first_end t ms in if ends e then first_build t (outcome e.err) e.err ms else rest

emit_notified :
    (t : TaskProgressInfo) (e : Event) (now : ℕ)
    → t.webhook_notified ≡ true
    → ((emit t e now).1 ≡ none) × ((emit t e now).0.webhook_notified ≡ true)
unfolding emit must_notify
emit_notified t e now h = ground arith

run_moves_notified :
    (t : TaskProgressInfo) (ms : List Move) → t.webhook_notified ≡ true → run_moves t [] ms ≡ []
unfolding run_moves
run_moves_notified t [] h = refl
run_moves_notified t (builds now ∷ ms) h = run_moves_notified t ms h
run_moves_notified t (arrives e now ∷ ms) h =
    let q = emit_notified t e now h in
    ap (λ o. run_moves (emit t e now).0 (owes [] o) ms) q.0
    ∙ run_moves_notified (emit t e now).0 ms q.1

emit-status :
    (t : TaskProgressInfo) (e : Event) (now : ℕ) → (emit t e now).0.status ≡ next_status t.status e
unfolding emit must_notify
emit-status t e now = ground arith

-- What a record keeps of the data that a payload names.
record Same (t u : TaskProgressInfo) : Type 0 where
  task_id : u.task_id ≡ t.task_id
  type : u.type ≡ t.type
  storage : u.storage ≡ t.storage
  path : u.path ≡ t.path
  webhook : u.webhook ≡ t.webhook

emit-Same : (t : TaskProgressInfo) (e : Event) (now : ℕ) → Same t (emit t e now).0
unfolding emit must_notify
emit-Same t e now = ground arith

-- A record that waits to notify.
record Waiting (t : TaskProgressInfo) : Type 0 where
  has_hook : str_eq t.webhook "" ≡ false
  pending : t.webhook_notified ≡ false
  open_end : is_final t.status ≡ false

emit_step :
    (t : TaskProgressInfo) (e : Event) (now : ℕ)
    → Waiting t
    → ((ends e ≡ true)
        × ((emit t e now).1 ≡ some (record { err = e.err }))
        × ((emit t e now).0.status ≡ outcome e.err)
        × ((emit t e now).0.webhook_notified ≡ true))
      ⊎ ((ends e ≡ false) × ((emit t e now).1 ≡ none) × Waiting (emit t e now).0)
unfolding emit must_notify
emit_step t e now w = ground arith

first_build-Same :
    (t u : TaskProgressInfo) (s : TaskStatus) (err : Option TaskError) (ms : List Move)
    → Same t u
    → first_build u s err ms ≡ first_build t s err ms
unfolding first_build
first_build-Same t u s err [] q = refl
first_build-Same t u s err (arrives e now ∷ ms) q = first_build-Same t u (next_status s e) err ms q
first_build-Same t u s err (builds now ∷ ms) q =
    ground (arith, q.task_id, q.type, q.storage, q.path)

first_end-Same :
    (t u : TaskProgressInfo) (ms : List Move) → Same t u → first_end u ms ≡ first_end t ms
unfolding first_end
first_end-Same t u [] s = refl
first_end-Same t u (builds now ∷ ms) s = first_end-Same t u ms s
first_end-Same t u (arrives e now ∷ ms) s =
    ground (arith, first_end-Same t u ms s, first_build-Same t u (outcome e.err) e.err ms s)

-- A webhook that is still to be sent is sent at the next turn of its call.
run_moves-first_build :
    (t : TaskProgressInfo) (n : Notice) (ms : List Move)
    → t.webhook_notified ≡ true
    → run_moves t (n ∷ []) ms ≡ first_build t t.status n.err ms
unfolding run_moves first_build notify create_webhook_payload
run_moves-first_build t n [] h = refl
run_moves-first_build t n (arrives e now ∷ ms) h =
    let q = emit_notified t e now h in
    let u = (emit t e now).0 in
    ap (λ o. run_moves u (owes (n ∷ []) o) ms) q.0
    ∙ run_moves-first_build u n ms q.1
    ∙ first_build-Same t u u.status n.err ms (emit-Same t e now)
    ∙ ap (λ s. first_build t s n.err ms) (emit-status t e now)
run_moves-first_build t n (builds now ∷ ms) h =
    ap (◌∷◌ (notify t n now)) (run_moves_notified t ms h)
    ∙ ap (λ p. p ∷ [])
        (ap
          (λ x. record {
            task_id = t.task_id;
            type = t.type;
            status = t.status;
            storage = t.storage;
            path = t.path;
            completed_at = if is_final t.status then some now else none;
            error = x;
          })
          (text n.err))
  where
    text :
        (o : Option TaskError)
        → (elim o as (λ x. String) [ none ↦ "" | some e ↦ e.message ]) ≡ text_of o
    text none = refl
    text (some e) = refl

-- The webhook of a record fires at most once. Whatever events come, and whenever the call that has a
-- webhook to send goes on: the payloads are the one for the first event that ends the task other than by a
-- cancellation, and none without one; it has the record's task and the error of that end, and the
-- status that the record has when the payload is built, which is that of the end unless further events came
-- before.
pub run_moves-first_end :
    (t : TaskProgressInfo) (ms : List Move)
    → str_eq t.webhook "" ≡ false
    → t.webhook_notified ≡ false
    → is_final t.status ≡ false
    → run_moves t [] ms ≡ first_end t ms
unfolding run_moves first_end
run_moves-first_end t [] h p o = refl
run_moves-first_end t (builds now ∷ ms) h p o = run_moves-first_end t ms h p o
run_moves-first_end t (arrives e now ∷ ms) h p o =
    let u = (emit t e now).0 in
    let same = emit-Same t e now in
    elim (emit_step t e now (record { has_hook = h; pending = p; open_end = o })) [
      | inl (ended, notice, status, notified) ↦ rw ended (
          ap (λ x. run_moves u (owes [] x) ms) notice
          ∙ run_moves-first_build u (record { err = e.err }) ms notified
          ∙ ap (λ s. first_build u s e.err ms) status
          ∙ first_build-Same t u (outcome e.err) e.err ms same)
      | inr (goes_on, none_yet, w) ↦ rw goes_on (
          ap (λ x. run_moves u (owes [] x) ms) none_yet
          ∙ run_moves-first_end u ms w.has_hook w.pending w.open_end
          ∙ first_end-Same t u ms same)
    ]

abbrev pub max_attempts : ℕ
max_attempts = 3

-- The answer to one attempt: no request could be made, the request failed, or an HTTP status.
pub data Posted : Type 0 where
  no_request : Posted
  request_failed : Posted
  response : ℕ → Posted

pub record Sending : Type 0 where
  pub attempts : ℕ
  pub slept : ℕ  -- milliseconds
  pub sent : Bool

-- The attempts from number `i` on, `left` of them allowed, with the current backoff.
send_from : (ℕ → Posted) → ℕ → ℕ → ℕ → Sending
send_from post zero i backoff = record { attempts = 0; slept = 0; sent = false }
send_from post (suc left) i backoff =
    let next = send_from post left (i + 1) (backoff * 4) in
    let pause : ℕ = if ltb i (max_attempts - 1) then backoff else 0 in
    let again : Sending = record {
      attempts = suc next.attempts;
      slept = pause + next.slept;
      sent = next.sent;
    } in
    elim (post i) [
      | no_request ↦ record { attempts = 1; slept = 0; sent = false }
      | request_failed ↦ again
      | response code ↦
          if leb 200 code && ltb code 300
          then record { attempts = 1; slept = 0; sent = true }
          else again
    ]

-- The goroutine of `SendWebhook`, for a payload with a task ID and a record with a URL.
unfoldable pub send_webhook : (ℕ → Posted) → Sending
unfolding send_from
send_webhook post = send_from post max_attempts 0 100

abbrev pub accepts : Posted → Bool
accepts (response code) = leb 200 code && ltb code 300
accepts _ = false

abbrev pub stops : Posted → Bool
stops no_request = true
stops p = accepts p

-- `SendWebhook` makes one to three attempts and sleeps at most 500 ms between them; it reports
-- success exactly when its last attempt was answered by a 2xx status, it makes a further attempt
-- only after one that failed or was refused, and it gives up early only if no request can be made.
pub send_webhook_lem :
    (post : ℕ → Posted)
    → let r = send_webhook post in
      (1 ≤ r.attempts)
      × (r.attempts ≤ 3)
      × (r.slept ≤ 500)
      × (r.sent ≡ accepts (post (r.attempts - 1)))
      × (1 < r.attempts → stops (post 0) ≡ false)
      × (2 < r.attempts → stops (post 1) ≡ false)
      × (r.attempts < 3 → stops (post (r.attempts - 1)) ≡ true)
unfolding send_webhook
send_webhook_lem post = ground arith
