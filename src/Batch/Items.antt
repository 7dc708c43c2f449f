-- ===== src/Batch/Items.antt =====
-- The progress records of core/tasks/batchtfile/item_progress.go. The task's lock is held for a
-- whole update, which is one function here. An error is the message that `compactError` makes of it
-- and whether it is `context.Canceled`. Byte counts are not negative.
pub mod Index
pub mod Phases
use save_any_bot.Prelude.{
  ℕ, suc, zero, ◌+◌, ◌-◌, Bool, true, false, not, ◌&&◌, ◌||◌, String, Option, none, some, List, [],
  ◌∷◌, ◌++◌, ◌==◌, ltb, leb, max, if◌then◌else◌, StrMap, get, put, length, get_elem?, set, map,
}
use save_any_bot.TaskEvent.{TaskError}
use save_any_bot.Batch.Meter.{TransferMeter, empty_meter, record_transfer, reset, speed}

pub data ItemPhase : Type 0 where
  waiting downloading transferring downloaded uploading retrying confirming : ItemPhase
  completed failed stopped : ItemPhase

pub data FailureStage : Type 0 where
  stage_none stage_download stage_cache stage_upload stage_confirm : FailureStage
  stage_batch_upload stage_internal : FailureStage

-- What the updates read of a `TaskElement`: its ID, and the name and size of its file.
pub record ElementInfo : Type 0 where
  pub id : String
  pub file : Option (String × ℕ)

pub record ItemState : Type 0 where
  pub index : ℕ
  pub id : String
  pub name : String
  pub expected_size : ℕ
  pub actual_size : ℕ
  pub downloaded_bytes : ℕ
  pub uploaded_bytes : ℕ
  pub phase : ItemPhase
  pub failure_stage : FailureStage
  pub retry_attempt : ℕ
  pub retry_limit : ℕ
  pub err : String
  pub download_meter : TransferMeter
  pub upload_meter : TransferMeter

pub record Items : Type 0 where
  pub item_states : List ItemState
  pub item_index : StrMap ℕ

-- `TaskItemProgress`, a snapshot.
pub record TaskItemProgress : Type 0 where
  pub index : ℕ
  pub id : String
  pub name : String
  pub size : ℕ
  pub downloaded_bytes : ℕ
  pub uploaded_bytes : ℕ
  pub download_speed : Option (ℕ × ℕ)
  pub upload_speed : Option (ℕ × ℕ)
  pub phase : ItemPhase
  pub failure_stage : FailureStage
  pub retry_attempt : ℕ
  pub retry_limit : ℕ
  pub err : String

abbrev is_phase : ItemPhase → ItemPhase → Bool
is_phase transferring transferring = true
is_phase retrying retrying = true
is_phase confirming confirming = true
is_phase completed completed = true
is_phase failed failed = true
is_phase _ _ = false

file_name : Option (String × ℕ) → String
file_name none = ""
file_name (some (name, size)) = name

file_size : Option (String × ℕ) → ℕ
file_size none = 0
file_size (some (name, size)) = size

unfoldable pub fresh_item : ℕ → ElementInfo → ItemState
unfolding file_name file_size
fresh_item i elem = record {
  index = i + 1;
  id = elem.id;
  name = file_name elem.file;
  expected_size = file_size elem.file;
  actual_size = 0;
  downloaded_bytes = 0;
  uploaded_bytes = 0;
  phase = waiting;
  failure_stage = stage_none;
  retry_attempt = 0;
  retry_limit = 0;
  err = "";
  download_meter = empty_meter;
  upload_meter = empty_meter;
}

-- The loop, from element `i` on.
add_items : ℕ → List ElementInfo → Items → Items
unfolding fresh_item
add_items i [] t = t
add_items i (elem ∷ elems) t = add_items (suc i) elems (record {
  item_states = t.item_states ++ fresh_item i elem ∷ [];
  item_index = put elem.id i t.item_index;
})

unfoldable pub new_item_progress_states : List ElementInfo → Items
unfolding add_items
new_item_progress_states elems = add_items 0 elems (record { item_states = []; item_index = [] })

change_at : Items → (ItemState → ItemState) → Option ItemState → ℕ → Items × Bool
change_at t update none i = (t, false)
change_at t update (some item) i =
    (record t { item_states = set t.item_states i (update item) }, true)

find_change : Items → (ItemState → ItemState) → Option ℕ → Items × Bool
unfolding change_at
find_change t update none = (t, false)
find_change t update (some i) = change_at t update (get_elem? t.item_states i) i

-- `updateItem`: an unknown ID, or an index out of range, changes nothing.
unfoldable pub update_item : Items → String → (ItemState → ItemState) → Items × Bool
unfolding find_change
update_item t id update = find_change t update (get id t.item_index)

-- The updates, as functions on one record.
unfoldable pub mark_item_active : Bool → ℕ → ItemState → ItemState
mark_item_active stream now item = record item {
  phase = if stream then transferring else downloading;
  failure_stage = stage_none;
  err = "";
  download_meter = record_transfer item.download_meter now item.downloaded_bytes;
  upload_meter =
      if stream
      then record_transfer item.upload_meter now item.uploaded_bytes
      else item.upload_meter;
}

-- Called with `n` bytes; none for `n <= 0`.
unfoldable pub record_item_download : ℕ → ℕ → ItemState → ItemState
record_item_download n now item =
    if n == 0
    then item
    else (let got = item.downloaded_bytes + n in
        let sent = item.uploaded_bytes + n in
        let item' = record item {
          downloaded_bytes = got;
          download_meter = record_transfer item.download_meter now got;
        } in
        if is_phase item.phase transferring
        then record item' {
          uploaded_bytes = sent;
          upload_meter = record_transfer item.upload_meter now sent;
        }
        else item')

unfoldable pub mark_item_downloaded : ItemState → ItemState
mark_item_downloaded item = record item { phase = downloaded }

set_actual_size : ℕ → ItemState → ItemState
set_actual_size actual_size item =
    let size = if ltb 0 actual_size then actual_size else item.actual_size in
    record item { actual_size = if size == 0 then item.downloaded_bytes else size }

unfoldable pub record_item_downloaded : ℕ → ItemState → ItemState
unfolding set_actual_size
record_item_downloaded actual_size item =
    let item' = set_actual_size actual_size item in
    if is_phase item.phase transferring
    then item'
    else record item' { phase = downloaded; upload_meter = reset item.upload_meter }

-- The record after `recordItemUpload`, and whether it has become confirming.
unfoldable pub record_item_upload : ℕ → ℕ → ℕ → ItemState → ItemState × Bool
record_item_upload uploaded total now item =
    if ltb uploaded item.uploaded_bytes && not (is_phase item.phase retrying)
    then (item, false)
    else (let meter =
          if ltb uploaded item.uploaded_bytes then reset item.upload_meter else item.upload_meter in
        let item' = record item {
          actual_size = if ltb 0 total then total else item.actual_size;
          uploaded_bytes = uploaded;
          upload_meter = record_transfer meter now uploaded;
        } in
        if ltb 0 total && leb total uploaded
        then (record item' { phase = confirming }, not (is_phase item.phase confirming))
        else (record item' { phase = uploading; failure_stage = stage_none; err = "" }, false))

unfoldable pub mark_item_retry : FailureStage → ℕ → ℕ → TaskError → ItemState → ItemState
mark_item_retry stage attempt limit error item = record item {
  phase = retrying;
  failure_stage = stage;
  retry_attempt = attempt;
  retry_limit = limit;
  err = error.message;
}

unfoldable pub mark_item_failed : FailureStage → TaskError → ItemState → ItemState
mark_item_failed stage error item =
    if is_phase item.phase failed || is_phase item.phase completed
    then item
    else if error.is_canceled
    then record item { phase = stopped }
    else record item { phase = failed; failure_stage = stage; err = error.message }

unfoldable pub mark_item_completed : ItemState → ItemState
mark_item_completed item = record item {
  phase = completed;
  failure_stage = stage_none;
  err = "";
  retry_attempt = 0;
  retry_limit = 0;
  actual_size =
      if item.actual_size == 0
      then max item.downloaded_bytes item.uploaded_bytes
      else item.actual_size;
}

finish_item : ItemState → ItemState
finish_item item =
    if is_phase item.phase completed || is_phase item.phase failed
    then item
    else record item { phase = stopped }

unfoldable pub finish_items : Items → Option TaskError → Items
unfolding finish_item
finish_items t none = t
finish_items t (some error) = record t { item_states = map finish_item t.item_states }

stage_of : Option ItemState → FailureStage
stage_of none = stage_upload
stage_of (some item) = if is_phase item.phase confirming then stage_confirm else stage_upload

pub item_at : Items → Option ℕ → Option ItemState
item_at t none = none
item_at t (some i) = get_elem? t.item_states i

unfoldable pub item_failure_stage : Items → String → FailureStage
unfolding stage_of item_at
item_failure_stage t id = stage_of (item_at t (get id t.item_index))

unfoldable pub snapshot_of : ItemState → TaskItemProgress
snapshot_of item = record {
  index = item.index;
  id = item.id;
  name = item.name;
  size = if item.actual_size == 0 then item.expected_size else item.actual_size;
  downloaded_bytes = item.downloaded_bytes;
  uploaded_bytes = item.uploaded_bytes;
  download_speed = speed item.download_meter;
  upload_speed = speed item.upload_meter;
  phase = item.phase;
  failure_stage = item.failure_stage;
  retry_attempt = item.retry_attempt;
  retry_limit = item.retry_limit;
  err = item.err;
}

unfoldable pub items : Items → List TaskItemProgress
unfolding snapshot_of
items t = map snapshot_of t.item_states

sum_sizes : ℕ → List TaskItemProgress → ℕ
sum_sizes total [] = total
sum_sizes total (item ∷ rest) = sum_sizes (total + item.size) rest

unfoldable pub actual_total_size : Items → ℕ
unfolding items sum_sizes
actual_total_size t = sum_sizes 0 (items t)
