-- ===== src/Batch/Element/Examples.antt =====
-- Examples for the elements of a batch: one whose first save fails, and two downloads of which one fails.
use save_any_bot.Prelude.{All, ◌≡◌, true, false, String, none, some, List, [], ◌∷◌}
use save_any_bot.TaskEvent.{TaskError}
use save_any_bot.Batch.Items.{ElementInfo, new_item_progress_states}
use save_any_bot.Batch.Items.Index.{new_item_progress_states-WellIndexed}
use save_any_bot.Batch.Groups.{TaskElement}
use save_any_bot.Batch.Element.{Happens, Work, process_element}
use save_any_bot.Batch.Element.Download.{process_batch}
use save_any_bot.Batch.Element.Settles.{Settles, process_element-Settles}
use save_any_bot.Batch.Element.Cache.{IsCleaned, without, process_batch-cache}

abbrev infos : List ElementInfo
infos =
    record { id = "x"; file = some ("x.mp4", 10) }
    ∷ record { id = "y"; file = some ("y.mp4", 5) }
    ∷ []

abbrev element : String → String → TaskElement
element id path = record {
  id = id;
  storage = 1;
  path = "/save";
  local_path = path;
  stream = false;
  source_group_key = "g";
  source_caption = "";
  preserve_caption = false;
}

abbrev refused : TaskError
refused = record { is_canceled = false; message = "connection refused" }

abbrev second_try : Happens
second_try = record {
  started = 1;
  created = none;
  chunks = record { size = 6; now = 2 } ∷ record { size = 4; now = 3 } ∷ [];
  downloads = none;
  closed = none;
  failures = [];
  stat = none;
  size = 10;
  attempts =
      record { opened = none; first = 4; reports = []; saved = some refused }
      ∷ record {
        opened = none;
        first = 5;
        reports = record { uploaded = 10; total = 10; now = 6 } ∷ [];
        saved = none;
      }
      ∷ [];
  result = none;
  ended = 7;
  removed = none;
}

abbrev no_download : Happens
no_download = record second_try { downloads = some refused }

abbrev work : Work
work = record {
  uploads = record {
    items = new_item_progress_states infos;
    uploaded = [];
    upload_total_size = 0;
    upload_started = false;
    tracked = true;
  };
  downloaded = 0;
  cache = "/tmp/other" ∷ [];
  processing = [];
}

process_element-Settles_example :
    Settles "x" work.uploads.items (process_element 3 (element "x" "/tmp/x") second_try work)
process_element-Settles_example =
    process_element-Settles 3 (element "x" "/tmp/x") second_try work
      (new_item_progress_states-WellIndexed infos)

abbrev pair : List (TaskElement × Happens)
pair = (element "x" "/tmp/x", second_try) ∷ (element "y" "/tmp/y", no_download) ∷ []

process_batch-cache_example :
    All (IsCleaned (process_batch true pair [] none 9 work).0.cache) pair
    × (without pair (process_batch true pair [] none 9 work).0.cache ≡ without pair work.cache)
    × ((process_batch true pair [] none 9 work).0.processing ≡ [])
process_batch-cache_example = process_batch-cache true pair [] none 9 work
