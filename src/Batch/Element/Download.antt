-- ===== src/Batch/Element/Download.antt =====
-- The part of core/tasks/batchtfile/execute.go that downloads the elements of a batch and hands them
-- to the storage together.
use save_any_bot.Prelude.{ℕ, Bool, false, Option, none, some, List, [], ◌∷◌}
use save_any_bot.TaskEvent.{TaskError}
use save_any_bot.Batch.Items.{stage_download, stage_cache, mark_item_downloaded}
use save_any_bot.Batch.Upload.{}
use save_any_bot.Batch.Saving.{BatchItem, ProgressCall, save_batch_items}
use save_any_bot.Batch.Groups.{TaskElement}
use save_any_bot.Batch.Element.{
  Happens, Work, change, record_chunks, create_cache, remove_cache, complete_download,
  unless_failed, guarded, first_error,
}

unfoldable pub download_element : TaskElement → Happens → Work → Work × Option TaskError
unfolding unless_failed record_chunks create_cache change
download_element elem h w = unless_failed elem.id stage_cache h.created w λ v.
    unless_failed elem.id stage_download h.downloads
      (record_chunks elem.id h.chunks (create_cache elem.local_path v))
      λ x.
        unless_failed elem.id stage_cache h.closed x
          λ y. (change elem.id mark_item_downloaded y, none)

-- The downloads of a batch: the work, the error of the group, and the elements whose download went well.
pub record Downloads : Type 0 where
  pub work : Work
  pub error : Option TaskError
  pub good : List (TaskElement × Happens)

unfoldable pub add_good :
    Option TaskError
    → TaskElement × Happens
    → List (TaskElement × Happens)
    → List (TaskElement × Happens)
add_good none eh good = eh ∷ good
add_good (some e) eh good = good

unfoldable pub download_all : Bool → List (TaskElement × Happens) → Work → Downloads
unfolding guarded download_element first_error add_good
download_all ignore_errors [] w = record { work = w; error = none; good = [] }
download_all ignore_errors ((elem, h) ∷ elems) w =
    let ran = guarded ignore_errors elem h.started (download_element elem h) w in
    let rest = download_all ignore_errors elems ran.work in
    record {
      work = rest.work;
      error = first_error ran.error rest.error;
      good = add_good ran.own (elem, h) rest.good;
    }

-- The cache files are opened one after the other; `stat` is the error of opening or of the size.
unfoldable pub open_all : List (TaskElement × Happens) → Work → Work × Option TaskError
unfolding unless_failed
open_all [] w = (w, none)
open_all ((elem, h) ∷ elems) w = unless_failed elem.id stage_cache h.stat w λ v. open_all elems v

unfoldable pub complete_downloads : List (TaskElement × Happens) → Work → Work
unfolding complete_download
complete_downloads [] w = w
complete_downloads ((elem, h) ∷ elems) w =
    complete_downloads elems (complete_download elem.id h.size w)

unfoldable pub batch_items : List (TaskElement × Happens) → List BatchItem
batch_items [] = []
batch_items ((elem, h) ∷ elems) = record { id = elem.id; size = h.size } ∷ batch_items elems

abbrev pub all_failed : TaskError
all_failed = record { is_canceled = false; message = "all elements failed to download" }

unfoldable pub save_opened :
    List (TaskElement × Happens)
    → List ProgressCall
    → Option TaskError
    → ℕ
    → Work × Option TaskError
    → Work × Option TaskError
unfolding complete_downloads batch_items
save_opened good calls error now (w, some e) = (w, some e)
save_opened good calls error now (w, none) =
    let counted = complete_downloads good w in
    (
      record counted {
        uploads = (save_batch_items (batch_items good) calls error now counted.uploads).0;
      },
      error,
    )

unfoldable pub save_good :
    List ProgressCall
    → Option TaskError
    → ℕ
    → List (TaskElement × Happens)
    → Work
    → Work × Option TaskError
unfolding open_all save_opened
save_good calls error now [] w = (w, some all_failed)
save_good calls error now (g ∷ good) w =
    save_opened (g ∷ good) calls error now (open_all (g ∷ good) w)

unfoldable pub after_downloads :
    List ProgressCall
    → Option TaskError
    → ℕ
    → Option TaskError
    → List (TaskElement × Happens)
    → Work
    → Work × Option TaskError
unfolding save_good
after_downloads calls error now (some e) good w = (w, some e)
after_downloads calls error now none good w = save_good calls error now good w

unfoldable pub remove_all :
    List (TaskElement × Happens) → Work × Option TaskError → Work × Option TaskError
unfolding remove_cache
remove_all [] r = r
remove_all ((elem, h) ∷ elems) r = remove_all elems (remove_cache h.removed elem.local_path r)

-- `calls` and `error` are what the storage reports and answers to the batch.
unfoldable pub process_batch :
    Bool
    → List (TaskElement × Happens)
    → List ProgressCall
    → Option TaskError
    → ℕ
    → Work
    → Work × Option TaskError
unfolding download_all after_downloads remove_all
process_batch ignore_errors elems calls error now w =
    let d = download_all ignore_errors elems w in
    remove_all elems (after_downloads calls error now d.error d.good d.work)
