-- ===== src/Batch/Element.antt =====
-- The processing of the elements of a batch in core/tasks/batchtfile/execute.go: processElement,
-- downloadElement, processElements and processBatch. What the network, the disk and a storage do for an
-- element is given by the errors that they end with and by the progress that they report; the
-- extension that is added to a name, and the tracker's notices, are left out.
pub mod Download
pub mod Touches
pub mod Settles
pub mod Cache
mod Examples
use save_any_bot.Prelude.{
  ℕ, zero, suc, ◌+◌, Bool, true, false, not, ◌&&◌, ◌||◌, String, Option, none, some, List, [], ◌∷◌,
  ◌++◌, str_eq, keep, if◌then◌else◌,
}
use save_any_bot.TaskEvent.{TaskError}
use save_any_bot.Batch.Items.{
  Items, ItemState, FailureStage, stage_download, stage_cache, stage_upload, update_item,
  mark_item_active, record_item_download, mark_item_downloaded, mark_item_retry, mark_item_failed,
  mark_item_completed, item_failure_stage, item_at,
}
use save_any_bot.Batch.Items.Index.{item_of}
use save_any_bot.Batch.Upload.{
  Uploads, Notice, start_upload, upload_callback, record_download_complete,
}
use save_any_bot.Batch.Saving.{BatchItem, ProgressCall, save_batch_items}
use save_any_bot.Batch.Groups.{TaskElement, is_fatal}

pub record Chunk : Type 0 where
  pub size : ℕ
  pub now : ℕ

pub record Report : Type 0 where
  pub uploaded : ℕ
  pub total : ℕ
  pub now : ℕ

-- One call of the function that `retry.Retry` repeats.
pub record Attempt : Type 0 where
  pub opened : Option TaskError
  pub first : ℕ
  pub reports : List Report
  pub saved : Option TaskError

-- What happens to an element outside of the task. `attempts` are the calls that `retry.Retry` makes
-- and `result` is what it returns; `failures` are the errors of the two ends of a stream, in the order of
-- their occurrence, and the first is that of the group; `removed` is the error of removing the cache file.
pub record Happens : Type 0 where
  pub started : ℕ
  pub created : Option TaskError
  pub chunks : List Chunk
  pub downloads : Option TaskError
  pub closed : Option TaskError
  pub failures : List (FailureStage × TaskError)
  pub stat : Option TaskError
  pub size : ℕ
  pub attempts : List Attempt
  pub result : Option TaskError
  pub ended : ℕ
  pub removed : Option TaskError

pub record Work : Type 0 where
  pub uploads : Uploads
  pub downloaded : ℕ
  pub cache : List String
  pub processing : List String

unfoldable pub change : String → (ItemState → ItemState) → Work → Work
change id f w = record w {
  uploads = record w.uploads { items = (update_item w.uploads.items id f).0 };
}

unfoldable pub fail : String → FailureStage → TaskError → Work → Work × Option TaskError
unfolding change
fail id stage e w = (change id (mark_item_failed stage e) w, some e)

unfoldable pub record_chunks : String → List Chunk → Work → Work
unfolding change
record_chunks id [] w = w
record_chunks id (c ∷ cs) w = record_chunks id cs (
    change id (record_item_download c.size c.now) (record w { downloaded = w.downloaded + c.size }))

unfoldable pub callback : String → ℕ → ℕ → ℕ → Work → Work
callback id uploaded total now w = record w {
  uploads = (upload_callback w.uploads id uploaded total now).0;
}

unfoldable pub report_all : String → List Report → Work → Work
unfolding callback
report_all id [] w = w
report_all id (r ∷ rs) w = report_all id rs (callback id r.uploaded r.total r.now w)

unfoldable pub create_cache : String → Work → Work
create_cache path w = record w { cache = path ∷ w.cache }

unfoldable pub remove_path : String → List String → List String
remove_path path c = keep (λ p. not (str_eq p path)) c

-- `os.Remove` with its error, which is only logged.
unfoldable pub remove_cache :
    Option TaskError → String → Work × Option TaskError → Work × Option TaskError
unfolding remove_path
remove_cache none path (w, e) = (record w { cache = remove_path path w.cache }, e)
remove_cache (some err) path (w, e) = (w, e)

-- The end of one attempt, with the number and the stage of the last failure: it succeeds, or `next` goes on.
unfoldable pub after_save :
    ℕ
    → String
    → ℕ
    → FailureStage
    → Option TaskError
    → Work
    → (FailureStage → Work → Work × FailureStage)
    → Work × FailureStage
unfolding change
after_save limit id n stage none w next = (w, stage)
after_save limit id n stage (some e) w next =
    let found = item_failure_stage w.uploads.items id in
    next found (change id (mark_item_retry found n limit e) w)

unfoldable pub attempt :
    ℕ
    → String
    → ℕ
    → ℕ
    → FailureStage
    → Attempt
    → Option TaskError
    → Work
    → (FailureStage → Work → Work × FailureStage)
    → Work × FailureStage
unfolding change callback report_all after_save
attempt limit id size n stage a (some e) w next =
    next stage_cache (change id (mark_item_retry stage_cache n limit e) w)
attempt limit id size n stage a none w next =
    after_save limit id n stage a.saved (report_all id a.reports (callback id 0 size a.first w))
      next

unfoldable pub run_attempts :
    ℕ → String → ℕ → ℕ → FailureStage → List Attempt → Work → Work × FailureStage
unfolding attempt
run_attempts limit id size n stage [] w = (w, stage)
run_attempts limit id size n stage (a ∷ as') w =
    attempt limit id size (suc n) stage a a.opened w
      λ st v. run_attempts limit id size (suc n) st as' v

unfoldable pub settle_element :
    String → ℕ → ℕ → Option TaskError → Work × FailureStage → Work × Option TaskError
unfolding change callback fail
settle_element id size now none (w, stage) =
    (change id mark_item_completed (callback id size size now w), none)
settle_element id size now (some e) (w, stage) = fail id stage e w

unfoldable pub complete_download : String → ℕ → Work → Work
complete_download id size w = record w { uploads = record_download_complete w.uploads id size }

-- From the size of the cache file on.
unfoldable pub upload_element : ℕ → String → Happens → Work → Work × Option TaskError
unfolding complete_download run_attempts settle_element
upload_element limit id h w =
    let counted = complete_download id h.size w in
    let begun : Work = record counted { uploads = (start_upload counted.uploads).0 } in
    settle_element id h.size h.ended h.result
      (run_attempts limit id h.size 0 stage_upload h.attempts begun)

-- The body of a step that may have failed before.
unfoldable pub unless_failed :
    String
    → FailureStage
    → Option TaskError
    → Work
    → (Work → Work × Option TaskError)
    → Work × Option TaskError
unfolding fail
unless_failed id stage none w body = body w
unless_failed id stage (some e) w body = fail id stage e w

unfoldable pub process_cached : ℕ → TaskElement → Happens → Work → Work × Option TaskError
unfolding unless_failed upload_element record_chunks create_cache remove_cache
process_cached limit elem h w = unless_failed elem.id stage_cache h.created w λ v.
    remove_cache h.removed elem.local_path (
      unless_failed elem.id stage_download h.downloads
        (record_chunks elem.id h.chunks (create_cache elem.local_path v))
        λ x. unless_failed elem.id stage_cache h.stat x λ y. upload_element limit elem.id h y)

unfoldable pub fail_each : String → List (FailureStage × TaskError) → Work → Work
unfolding change
fail_each id [] w = w
fail_each id ((stage, e) ∷ fs) w = fail_each id fs (change id (mark_item_failed stage e) w)

unfoldable pub streamed_bytes : Option ItemState → ℕ
streamed_bytes none = 0
streamed_bytes (some item) = item.downloaded_bytes

unfoldable pub end_stream :
    String → List (FailureStage × TaskError) → Work → Work × Option TaskError
unfolding fail_each complete_download streamed_bytes change item_of
end_stream id [] w = (
  change id mark_item_completed
      (complete_download id (streamed_bytes (item_of w.uploads.items id)) w),
  none,
)
end_stream id ((stage, e) ∷ fs) w = (fail_each id ((stage, e) ∷ fs) w, some e)

unfoldable pub process_element : ℕ → TaskElement → Happens → Work → Work × Option TaskError
unfolding process_cached end_stream record_chunks
process_element limit elem h w =
    if elem.stream
    then end_stream elem.id h.failures (record_chunks elem.id h.chunks w)
    else process_cached limit elem h w

unfoldable pub is_listed : String → List String → Bool
is_listed id [] = false
is_listed id (x ∷ xs) = let rest = is_listed id xs in if str_eq x id then true else rest

abbrev pub already_processed : TaskError
already_processed = record { is_canceled = false; message = "element is already being processed" }

unfoldable pub unless_fatal : Bool → Option TaskError → Option TaskError
unfolding is_fatal
unless_fatal ignore_errors e = if is_fatal ignore_errors e then e else none

-- A goroutine of a group: the work, the error of its element, and the error that it returns.
pub record Ran : Type 0 where
  pub work : Work
  pub own : Option TaskError
  pub error : Option TaskError

unfoldable pub unmark : Bool → String → Work × Option TaskError → Ran
unfolding unless_fatal
unmark ignore_errors id (w, e) = record {
  work = record w { processing = keep (λ x. not (str_eq x id)) w.processing };
  own = e;
  error = unless_fatal ignore_errors e;
}

-- `markProcessing`, what is done meanwhile, and `unmarkProcessing`.
unfoldable pub guarded : Bool → TaskElement → ℕ → (Work → Work × Option TaskError) → Work → Ran
unfolding is_listed unmark change
guarded ignore_errors elem now body w =
    let marked : Work = record w { processing = elem.id ∷ w.processing } in
    let ran =
      unmark ignore_errors elem.id
        (body (change elem.id (mark_item_active elem.stream now) marked)) in
    if is_listed elem.id w.processing
    then record { work = w; own = some already_processed; error = some already_processed }
    else ran

unfoldable pub first_error : Option TaskError → Option TaskError → Option TaskError
first_error none e = e
first_error (some e) later = some e

-- The goroutines of the group, each as one step, in the order in which they end.
unfoldable pub process_elements :
    ℕ → Bool → List (TaskElement × Happens) → Work → Work × Option TaskError
unfolding guarded process_element first_error
process_elements limit ignore_errors [] w = (w, none)
process_elements limit ignore_errors ((elem, h) ∷ elems) w =
    let ran = guarded ignore_errors elem h.started (process_element limit elem h) w in
    let (w', later) = process_elements limit ignore_errors elems ran.work in
    (w', first_error ran.error later)
