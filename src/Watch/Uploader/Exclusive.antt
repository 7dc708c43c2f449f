-- ===== src/Watch/Uploader/Exclusive.antt =====
-- Each path is in one place at a time in cmd/watch/uploader.go.
use save_any_bot.Prelude.{
  ℕ, suc, ◌+◌, ◌-◌, ◌<◌, ◌≡◌, refl, ap, Bool, true, false, String, Option, none, some, List, [],
  ◌∷◌, ◌++◌, str_eq, str_eq_iff, if◌then◌else◌, get, get-put, get-delete, arith,
}
use save_any_bot.Watch.Uploader.{
  UploadJob, Uploader, UploaderOptions, new_uploader, remove_job, submit, send, give_up, receive,
  receive_from, abort, finish,
}

-- How many jobs of a list are for a path.
unfoldable pub count : String → List UploadJob → ℕ
count p [] = 0
count p (j ∷ js) = let rest = count p js in if str_eq j.local_path p then suc rest else rest

pub count-append :
    (p : String) (js ks : List UploadJob) → count p (js ++ ks) ≡ count p js + count p ks
unfolding count
count-append p [] ks = omega arith
count-append p (j ∷ js) ks = ground (arith, count-append p js ks)

pub count-remove_job :
    (p q : String) (js : List UploadJob)
    → count q (remove_job p js) ≡ (if str_eq p q then count q js - 1 else count q js)
unfolding count remove_job
count-remove_job p q [] = ground arith
count-remove_job p q (j ∷ js) = ground (
  arith,
  str_eq_iff j.local_path p,
  str_eq_iff j.local_path q,
  str_eq_iff p q,
  count-remove_job p q js,
)

pub count_one :
    (p : String) (j : UploadJob) → count p (j ∷ []) ≡ (if str_eq j.local_path p then 1 else 0)
unfolding count
count_one p j = refl

abbrev pub present : Option Bool → ℕ
present none = 0
present (some _) = 1

-- A path is in flight exactly if one job for it waits to be sent, is queued or is being uploaded,
-- and then there is only one.
abbrev pub IsExclusive : Uploader → Type 0
IsExclusive u =
    (p : String)
    → count p u.sending + count p u.jobs + count p u.processing ≡ present (get p u.inflight)

pub data Step : Type 0 where
  submits sends gives_up aborts finishes : UploadJob → Step
  receives : Step

unfoldable pub step : Uploader → Step → Uploader
step u (submits job) = submit u job
step u (sends job) = send u job
step u (gives_up job) = give_up u job
step u (aborts job) = abort u job
step u (finishes job) = finish u job
step u receives = receive u

-- Only a goroutine that waits with a job sends it or gives it up, and only a worker that has a job
-- ends it.
abbrev pub Possible : Uploader → Step → Type 0
Possible u (submits job) = Unit
Possible u (sends job) = 0 < count job.local_path u.sending
Possible u (gives_up job) = 0 < count job.local_path u.sending
Possible u (aborts job) = 0 < count job.local_path u.processing
Possible u (finishes job) = 0 < count job.local_path u.processing
Possible u receives = Unit

abbrev pub AllPossible : Uploader → List Step → Type 0
AllPossible u [] = Unit
AllPossible u (s ∷ ss) = Possible u s × AllPossible (step u s) ss

unfoldable pub run : Uploader → List Step → Uploader
run u [] = u
run u (s ∷ ss) = run (step u s) ss

pub submit-IsExclusive :
    (u : Uploader) (job : UploadJob) → IsExclusive u → IsExclusive (submit u job)
unfolding submit
submit-IsExclusive u job x p = ground (
  arith,
  x p,
  get-put p job.local_path true u.inflight,
  get-put p job.local_path false u.inflight,
  count-append p u.sending (job ∷ []),
  count_one p job,
  str_eq_iff job.local_path p,
)

send-IsExclusive :
    (u : Uploader) (job : UploadJob)
    → 0 < count job.local_path u.sending
    → IsExclusive u
    → IsExclusive (send u job)
unfolding send
send-IsExclusive u job h x p = ground (
  arith,
  x p,
  count-append p u.jobs (job ∷ []),
  count-remove_job job.local_path p u.sending,
  count_one p job,
  str_eq_iff job.local_path p,
)

give_up-IsExclusive :
    (u : Uploader) (job : UploadJob)
    → 0 < count job.local_path u.sending
    → IsExclusive u
    → IsExclusive (give_up u job)
unfolding give_up
give_up-IsExclusive u job h x p = ground (
  arith,
  x p,
  count-remove_job job.local_path p u.sending,
  get-delete p job.local_path u.inflight,
  str_eq_iff job.local_path p,
)

abort-IsExclusive :
    (u : Uploader) (job : UploadJob)
    → 0 < count job.local_path u.processing
    → IsExclusive u
    → IsExclusive (abort u job)
unfolding abort
abort-IsExclusive u job h x p = ground (
  arith,
  x p,
  count-remove_job job.local_path p u.processing,
  get-delete p job.local_path u.inflight,
  str_eq_iff job.local_path p,
)

finish-IsExclusive :
    (u : Uploader) (job : UploadJob)
    → 0 < count job.local_path u.processing
    → IsExclusive u
    → IsExclusive (finish u job)
unfolding finish
finish-IsExclusive u job h x p = ground (
  arith,
  x p,
  count-remove_job job.local_path p u.processing,
  count-append p u.sending (job ∷ []),
  count_one p job,
  get-delete p job.local_path u.inflight,
  get-put p job.local_path false u.inflight,
  str_eq_iff job.local_path p,
)

receive_from-IsExclusive :
    (u : Uploader) (js : List UploadJob)
    → u.jobs ≡ js
    → IsExclusive u
    → IsExclusive (receive_from u js)
unfolding receive_from
receive_from-IsExclusive u [] e x p = x p
receive_from-IsExclusive u (j ∷ js) e x p = unfold count in ground (arith, x p, ap (count p) e)

pub step-IsExclusive :
    (u : Uploader) (s : Step) → Possible u s → IsExclusive u → IsExclusive (step u s)
unfolding step receive
step-IsExclusive u (submits job) h x = submit-IsExclusive u job x
step-IsExclusive u (sends job) h x = send-IsExclusive u job h x
step-IsExclusive u (gives_up job) h x = give_up-IsExclusive u job h x
step-IsExclusive u (aborts job) h x = abort-IsExclusive u job h x
step-IsExclusive u (finishes job) h x = finish-IsExclusive u job h x
step-IsExclusive u receives h x = receive_from-IsExclusive u u.jobs refl x

run-IsExclusive :
    (u : Uploader) (ss : List Step) → AllPossible u ss → IsExclusive u → IsExclusive (run u ss)
unfolding run
run-IsExclusive u [] h x = x
run-IsExclusive u (s ∷ ss) h x = run-IsExclusive (step u s) ss h.1 (step-IsExclusive u s h.0 x)

-- From the start of the uploader, whatever submissions, sends, cancellations and ends of uploads
-- follow in whatever order, each path is in at most one place, in particular never uploaded by two
-- workers at once, and it is marked as in flight exactly while it is in one.
pub run-new_uploader :
    (o : UploaderOptions) (ss : List Step)
    → AllPossible (new_uploader o) ss
    → IsExclusive (run (new_uploader o) ss)
unfolding new_uploader
run-new_uploader o ss h = run-IsExclusive (new_uploader o) ss h (λ p. unfold count get in refl)
