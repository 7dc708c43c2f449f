-- ===== src/Batch/Examples.antt =====
-- A batch of three files of core/tasks/batchtfile, two of them in one source group.
use save_any_bot.Prelude.{
  ℕ, ◌+◌, ◌≡◌, ◌⊎◌, true, false, String, Option, none, some, List, [], ◌∷◌, ◌==◌, length,
}
use save_any_bot.TaskEvent.{TaskError}
use save_any_bot.Batch.Items.{ElementInfo, fresh_item, new_item_progress_states}
use save_any_bot.Batch.Items.Index.{item_of, after, new_item_progress_states-WellIndexed}
use save_any_bot.Batch.Items.Phases.{
  Update, downloads, uploads, completes, activates, apply_all, update_all, own, update_all-own,
  Consistent, apply_all-fresh,
}
use save_any_bot.Batch.Upload.{Uploads}
use save_any_bot.Batch.Upload.Rising.{Report, report_all, Rising, capped_sum, report_all-Rising}
use save_any_bot.Batch.Saving.{BatchItem, ProgressCall, save_batch_items}
use save_any_bot.Batch.Saving.Loops.{in_batch, EndsAs}
use save_any_bot.Batch.Saving.Settled.{save_batch_items-EndsAs}
use save_any_bot.Batch.Groups.{TaskElement, execution_groups, flatten_groups}
use save_any_bot.Batch.Groups.Partition.{AreGroups, execution_groups-AreGroups}
use save_any_bot.Batch.Groups.Execution.{turns, flatten_turns, execute-run_turns}

abbrev infos : List ElementInfo
infos = record { id = "x"; file = some ("x.mp4", 10) } ∷ record { id = "y"; file = none } ∷ []

abbrev updates : List (String × Update)
updates =
    ("x", activates false 1)
    ∷ ("y", downloads 3 2)
    ∷ ("x", downloads 10 3)
    ∷ ("x", uploads 10 10 4)
    ∷ ("x", completes)
    ∷ []

update_all-own_example :
    item_of (update_all (new_item_progress_states infos) updates) "y"
    ≡ after (apply_all (downloads 3 2 ∷ [])) (item_of (new_item_progress_states infos) "y")
unfolding own
update_all-own_example = update_all-own infos updates "y"

abbrev life : List Update
life = activates false 1 ∷ downloads 10 3 ∷ uploads 10 10 4 ∷ completes ∷ []

abbrev x_info : ElementInfo
x_info = record { id = "x"; file = some ("x.mp4", 10) }

apply_all-fresh_example : Consistent (apply_all life (fresh_item 0 x_info))
apply_all-fresh_example = apply_all-fresh life 0 x_info

abbrev canceled : TaskError
canceled = record { is_canceled = true; message = "context canceled" }

abbrev uploading : Uploads
uploading = record {
  items = record { item_states = []; item_index = [] };
  uploaded = [];
  upload_total_size = 12;
  upload_started = false;
  tracked = true;
}

abbrev reports : List Report
reports =
    record { id = "x"; uploaded = 7; total = 10; now = 1 }
    ∷ record { id = "y"; uploaded = 9; total = 9; now = 2 }
    ∷ record { id = "x"; uploaded = 0; total = 10; now = 3 }
    ∷ []

report_all-Rising_example : Rising true 12 (capped_sum uploading) (report_all uploading reports).1
report_all-Rising_example = report_all-Rising uploading reports

abbrev element : String → String → TaskElement
element id key = record {
  id = id;
  storage = 1;
  path = id;
  local_path = id;
  stream = false;
  source_group_key = key;
  source_caption = "";
  preserve_caption = false;
}

abbrev elements : List TaskElement
elements = element "x" "g" ∷ element "y" "g" ∷ element "z" "" ∷ element "w" "" ∷ []

execution_groups-AreGroups_example :
    (flatten_groups (execution_groups (λ s. s == 1) elements) ≡ elements)
    × AreGroups (λ s. s == 1) (execution_groups (λ s. s == 1) elements)
execution_groups-AreGroups_example = execution_groups-AreGroups (λ s. s == 1) elements

-- The state is what was processed, and the second turn fails.
abbrev batch_ok : List TaskElement → ℕ → ℕ × Option TaskError
batch_ok es n = (n + length es, none)

abbrev elements_fail : List TaskElement → ℕ → ℕ × Option TaskError
elements_fail es n = (n + length es, some canceled)

execute-run_turns_example :
    flatten_turns (turns (execution_groups (λ s. s == 1) elements))
    ≡ flatten_groups (execution_groups (λ s. s == 1) elements)
execute-run_turns_example =
    (execute-run_turns batch_ok elements_fail true (λ n. n) (λ _ n. n)
      (execution_groups (λ s. s == 1) elements) 0).1

abbrev downloaded_batch : Uploads
downloaded_batch = record {
  items = new_item_progress_states infos;
  uploaded = [];
  upload_total_size = 10;
  upload_started = false;
  tracked = true;
}

abbrev x_item : List BatchItem
x_item = record { id = "x"; size = 10 } ∷ []

-- The second report is for a place that the batch does not have.
abbrev calls : List ProgressCall
calls =
    record { place = 0; uploaded = 4; total = 10; now = 5 }
    ∷ record { place = 7; uploaded = 4; total = 10; now = 6 }
    ∷ []

save_batch_items-EndsAs_example :
    ((in_batch "x" x_item ≡ true)
      × EndsAs none (save_batch_items x_item calls none 9 downloaded_batch).0.items "x")
    ⊎ ((in_batch "x" x_item ≡ false)
        × (item_of (save_batch_items x_item calls none 9 downloaded_batch).0.items "x"
            ≡ item_of (new_item_progress_states infos) "x"))
save_batch_items-EndsAs_example =
    save_batch_items-EndsAs x_item calls none 9 downloaded_batch "x"
      (new_item_progress_states-WellIndexed infos)
