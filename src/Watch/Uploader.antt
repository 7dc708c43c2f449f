-- ===== src/Watch/Uploader.antt =====
-- The job queue of cmd/watch/uploader.go. The lock is held for a part of each method only, so a step
-- is what happens between two points where others may act: `jobs` is the channel, `sending` are the
-- goroutines that wait at `u.jobs <- job`, and `processing` the jobs inside `process`. How an upload
-- ends is chosen by the environment, as is the time at which the context is cancelled.
pub mod Exclusive
pub mod Resent
use save_any_bot.Prelude.{
  ℕ, suc, ◌+◌, ◌*◌, ◌<◌, ◌≡◌, Bool, true, false, String, Option, none, some, List, [], ◌∷◌, ◌++◌,
  ltb, str_eq, if◌then◌else◌, StrMap, get, put, delete, length,
}

pub record UploadJob : Type 0 where
  pub local_path : String
  pub rel_path : String

pub record Uploader : Type 0 where
  pub inflight : StrMap Bool
  pub jobs : List UploadJob
  pub queue_size : ℕ
  pub sending : List UploadJob
  pub processing : List UploadJob

pub record UploaderOptions : Type 0 where
  pub workers : ℕ
  pub retry : ℕ
  pub retry_delay : ℕ
  pub queue_size : ℕ

-- The defaults of `NewUploader`; the delay is in nanoseconds.
unfoldable pub with_defaults : UploaderOptions → UploaderOptions
with_defaults o =
    let workers : ℕ = if ltb o.workers 1 then 1 else o.workers in
    record {
      workers = workers;
      retry = if ltb o.retry 1 then 1 else o.retry;
      retry_delay = if ltb 0 o.retry_delay then o.retry_delay else 3_000_000_000;
      queue_size = if ltb o.queue_size workers then workers * 64 else o.queue_size;
    }

unfoldable pub new_uploader : UploaderOptions → Uploader
unfolding with_defaults
new_uploader o = record {
  inflight = [];
  jobs = [];
  queue_size = (with_defaults o).queue_size;
  sending = [];
  processing = [];
}

-- The first job for a path is taken out.
unfoldable pub remove_job : String → List UploadJob → List UploadJob
remove_job path [] = []
remove_job path (j ∷ js) = if str_eq j.local_path path then js else j ∷ remove_job path js

submit_known : Uploader → UploadJob → Option Bool → Uploader
submit_known u job (some _) = record u { inflight = put job.local_path true u.inflight }
submit_known u job none = record u {
  inflight = put job.local_path false u.inflight;
  sending = u.sending ++ job ∷ [];
}

-- `Submit` up to its send.
unfoldable pub submit : Uploader → UploadJob → Uploader
unfolding submit_known
submit u job = submit_known u job (get job.local_path u.inflight)

-- A waiting goroutine puts its job into the channel, if that has room.
unfoldable pub send : Uploader → UploadJob → Uploader
send u job =
    if ltb (length u.jobs) u.queue_size
    then record u { jobs = u.jobs ++ job ∷ []; sending = remove_job job.local_path u.sending }
    else u

unfoldable pub clear_inflight : Uploader → String → Uploader
clear_inflight u path = record u { inflight = delete path u.inflight }

-- A waiting goroutine sees that the context is done.
unfoldable pub give_up : Uploader → UploadJob → Uploader
unfolding clear_inflight
give_up u job =
    clear_inflight (record u { sending = remove_job job.local_path u.sending }) job.local_path

receive_from : Uploader → List UploadJob → Uploader
receive_from u [] = u
receive_from u (job ∷ rest) = record u { jobs = rest; processing = job ∷ u.processing }

-- A worker receives from the channel.
unfoldable pub receive : Uploader → Uploader
unfolding receive_from
receive u = receive_from u u.jobs

-- The upload failed and the context is done.
unfoldable pub abort : Uploader → UploadJob → Uploader
unfolding clear_inflight
abort u job =
    clear_inflight (record u { processing = remove_job job.local_path u.processing }) job.local_path

abbrev is_marked : Option Bool → Bool
is_marked (some true) = true
is_marked _ = false

-- The end of `process`, whether the upload succeeded or failed for good: a file that changed
-- meanwhile is sent again.
unfoldable pub finish : Uploader → UploadJob → Uploader
finish u job =
    let left = remove_job job.local_path u.processing in
    if is_marked (get job.local_path u.inflight)
    then record u {
      inflight = put job.local_path false u.inflight;
      sending = u.sending ++ job ∷ [];
      processing = left;
    }
    else record u { inflight = delete job.local_path u.inflight; processing = left }
