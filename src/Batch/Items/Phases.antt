-- ===== src/Batch/Items/Phases.antt =====
-- The life of one file in core/tasks/batchtfile/item_progress.go, over every sequence of updates.
use save_any_bot.Prelude.{
  ℕ, ◌+◌, ◌≤◌, ◌<◌, ◌≡◌, ◌≢◌, ◌⊎◌, refl, Bool, true, false, String, some, List, [], ◌∷◌,
  if◌then◌else◌, str_eq, arith, map,
}
use save_any_bot.TaskEvent.{TaskError}
use save_any_bot.Batch.Meter.{TransferMeter, reset, empty_meter}
use save_any_bot.Batch.Meter.Window
use save_any_bot.Batch.Items.{
  ElementInfo, ItemState, Items, retrying, confirming, completed, failed, stopped, FailureStage,
  stage_none, fresh_item, new_item_progress_states, update_item, mark_item_active,
  record_item_download, mark_item_downloaded, record_item_downloaded, record_item_upload,
  mark_item_retry, mark_item_failed, mark_item_completed, finish_item, finish_items,
}
use save_any_bot.Batch.Items.Index.{
  item_of, WellIndexed, KeepsId, after, new_item_progress_states-WellIndexed, update_item-item_of,
  update_item-WellIndexed,
}

-- The updates that the task makes of a record, with their arguments.
pub data Update : Type 0 where
  activates : Bool → ℕ → Update
  downloads : ℕ → ℕ → Update
  marks_downloaded : Update
  records_downloaded : ℕ → Update
  uploads : ℕ → ℕ → ℕ → Update
  retries : FailureStage → ℕ → ℕ → TaskError → Update
  fails : FailureStage → TaskError → Update
  completes : Update

unfoldable pub apply : Update → ItemState → ItemState
apply (activates stream now) item = mark_item_active stream now item
apply (downloads n now) item = record_item_download n now item
apply marks_downloaded item = mark_item_downloaded item
apply (records_downloaded size) item = record_item_downloaded size item
apply (uploads n total now) item = (record_item_upload n total now item).0
apply (retries stage attempt limit error) item = mark_item_retry stage attempt limit error item
apply (fails stage error) item = mark_item_failed stage error item
apply completes item = mark_item_completed item

unfoldable pub apply_all : List Update → ItemState → ItemState
apply_all [] item = item
apply_all (u ∷ us) item = apply_all us (apply u item)

apply-KeepsId : (u : Update) → KeepsId (apply u)
unfolding apply mark_item_active record_item_download mark_item_downloaded record_item_downloaded
    record_item_upload mark_item_retry mark_item_failed mark_item_completed
apply-KeepsId (activates stream now) item = refl
apply-KeepsId (downloads n now) item = ground arith
apply-KeepsId marks_downloaded item = refl
apply-KeepsId (records_downloaded size) item = ground arith
apply-KeepsId (uploads n total now) item = ground arith
apply-KeepsId (retries stage attempt limit error) item = refl
apply-KeepsId (fails stage error) item = ground arith
apply-KeepsId completes item = refl

-- The updates of all records, each under the ID of its element.
unfoldable pub update_all : Items → List (String × Update) → Items
update_all t [] = t
update_all t ((id, u) ∷ us) = update_all (update_item t id (apply u)).0 us

unfoldable pub own : String → List (String × Update) → List Update
own id [] = []
own id ((j, u) ∷ us) = let rest = own id us in if str_eq j id then u ∷ rest else rest

update_all-item_of :
    (t : Items) (us : List (String × Update)) (id : String)
    → WellIndexed t
    → item_of (update_all t us) id ≡ after (apply_all (own id us)) (item_of t id)
unfolding update_all own apply_all
update_all-item_of t [] id w = ground arith
update_all-item_of t ((j, u) ∷ us) id w = ground (
  arith,
  update_item-item_of t j (apply u) id w,
  update_all-item_of (update_item t j (apply u)).0 us id
      (update_item-WellIndexed t j (apply u) (apply-KeepsId u) w),
)

-- The files of a batch do not disturb one another: after any interleaving of updates from the start
-- of the task, the record of a file is what its own updates, in their order, make of its first
-- record.
pub update_all-own :
    (elems : List ElementInfo) (us : List (String × Update)) (id : String)
    → item_of (update_all (new_item_progress_states elems) us) id
      ≡ after (apply_all (own id us)) (item_of (new_item_progress_states elems) id)
update_all-own elems us id =
    update_all-item_of (new_item_progress_states elems) us id
      (new_item_progress_states-WellIndexed elems)

-- The last byte count that a meter was given.
abbrev pub Measures : TransferMeter → ℕ → Type 0
Measures m n = m.has_data ≡ true → m.latest.bytes ≡ n

-- What holds of a record after any updates.
pub record Consistent (item : ItemState) : Type 0 where
  pub download_window : Window.Inv item.download_meter
  pub upload_window : Window.Inv item.upload_meter
  pub download_measured : Measures item.download_meter item.downloaded_bytes
  pub upload_measured : Measures item.upload_meter item.uploaded_bytes
  pub completed_clean :
      item.phase ≡ completed
      → (item.failure_stage ≡ stage_none)
        × (item.err ≡ "")
        × (item.retry_attempt ≡ 0)
        × (item.retry_limit ≡ 0)
  pub confirming_full :
      item.phase ≡ confirming → (0 < item.actual_size) × (item.actual_size ≤ item.uploaded_bytes)

fresh_item-Consistent : (i : ℕ) (elem : ElementInfo) → Consistent (fresh_item i elem)
unfolding fresh_item
fresh_item-Consistent i elem = record {
  download_window = Window.empty_meter-Inv;
  upload_window = Window.empty_meter-Inv;
  download_measured = λ e. cc;
  upload_measured = λ e. cc;
  completed_clean = λ e. cc;
  confirming_full = λ e. cc;
}

activates-Consistent :
    (stream : Bool) (now : ℕ) (item : ItemState)
    → Consistent item
    → Consistent (mark_item_active stream now item)
unfolding mark_item_active
activates-Consistent true now item c = record {
  download_window = Window.record_transfer-Inv _ _ _ c.download_window;
  upload_window = Window.record_transfer-Inv _ _ _ c.upload_window;
  download_measured = λ e. Window.record_transfer-Measures _ _ _;
  upload_measured = λ e. Window.record_transfer-Measures _ _ _;
  completed_clean = λ e. cc;
  confirming_full = λ e. cc;
}
activates-Consistent false now item c = record {
  download_window = Window.record_transfer-Inv _ _ _ c.download_window;
  upload_window = c.upload_window;
  download_measured = λ e. Window.record_transfer-Measures _ _ _;
  upload_measured = c.upload_measured;
  completed_clean = λ e. cc;
  confirming_full = λ e. cc;
}

downloads-Consistent :
    (n now : ℕ) (item : ItemState) → Consistent item → Consistent (record_item_download n now item)
unfolding record_item_download
downloads-Consistent n now item c = ground (
  arith,
  c.confirming_full,
  c.completed_clean,
  Window.record_transfer-Inv item.download_meter now (item.downloaded_bytes + n) c.download_window,
  Window.record_transfer-Inv item.upload_meter now (item.uploaded_bytes + n) c.upload_window,
  Window.record_transfer-Measures item.download_meter now (item.downloaded_bytes + n),
  Window.record_transfer-Measures item.upload_meter now (item.uploaded_bytes + n),
)

records-Consistent :
    (size : ℕ) (item : ItemState) → Consistent item → Consistent (record_item_downloaded size item)
unfolding record_item_downloaded reset
records-Consistent size item c = ground (arith, Window.empty_meter-Inv)

uploads-Consistent :
    (n total now : ℕ) (item : ItemState)
    → Consistent item
    → Consistent (record_item_upload n total now item).0
unfolding record_item_upload reset
uploads-Consistent n total now item c = ground (
  arith,
  Window.record_transfer-Inv item.upload_meter now n c.upload_window,
  Window.record_transfer-Inv empty_meter now n Window.empty_meter-Inv,
  Window.record_transfer-Measures item.upload_meter now n,
  Window.record_transfer-Measures empty_meter now n,
)

fails-Consistent :
    (stage : FailureStage) (error : TaskError) (item : ItemState)
    → Consistent item
    → Consistent (mark_item_failed stage error item)
unfolding mark_item_failed
fails-Consistent stage error item c = ground arith

completes-Consistent : (item : ItemState) → Consistent item → Consistent (mark_item_completed item)
unfolding mark_item_completed
completes-Consistent item c = ground arith

retries-Consistent :
    (stage : FailureStage) (attempt limit : ℕ) (error : TaskError) (item : ItemState)
    → Consistent item
    → Consistent (mark_item_retry stage attempt limit error item)
unfolding mark_item_retry
retries-Consistent stage attempt limit error item c = ground arith

marks-Consistent : (item : ItemState) → Consistent item → Consistent (mark_item_downloaded item)
unfolding mark_item_downloaded
marks-Consistent item c = ground arith

apply-Consistent : (u : Update) (item : ItemState) → Consistent item → Consistent (apply u item)
unfolding apply
apply-Consistent (activates stream now) item c = activates-Consistent stream now item c
apply-Consistent (downloads n now) item c = downloads-Consistent n now item c
apply-Consistent marks_downloaded item c = marks-Consistent item c
apply-Consistent (records_downloaded size) item c = records-Consistent size item c
apply-Consistent (uploads n total now) item c = uploads-Consistent n total now item c
apply-Consistent (retries stage attempt limit error) item c =
    retries-Consistent stage attempt limit error item c
apply-Consistent (fails stage error) item c = fails-Consistent stage error item c
apply-Consistent completes item c = completes-Consistent item c

apply_all-Consistent :
    (us : List Update) (item : ItemState) → Consistent item → Consistent (apply_all us item)
unfolding apply_all
apply_all-Consistent [] item c = c
apply_all-Consistent (u ∷ us) item c =
    apply_all-Consistent us (apply u item) (apply-Consistent u item c)

-- After any updates of a new record its two meters are well formed and last saw exactly the bytes
-- that the record shows as downloaded and uploaded; a completed record shows no failure, error or
-- retry; and a confirming one has uploaded its whole, positive size.
pub apply_all-fresh :
    (us : List Update) (i : ℕ) (elem : ElementInfo) → Consistent (apply_all us (fresh_item i elem))
apply_all-fresh us i elem = apply_all-Consistent us _ (fresh_item-Consistent i elem)

-- Reports of uploaded bytes never move a record backwards, except after a retry was announced; the
-- answer "has become confirming" is given just when the record enters that phase with all of a
-- positive total uploaded; and an ignored report changes nothing.
pub record_item_upload-forward :
    (n total now : ℕ) (item : ItemState)
    → let (item', entered) = record_item_upload n total now item in
      ((item.uploaded_bytes ≤ item'.uploaded_bytes) ⊎ (item.phase ≡ retrying))
      × ((item'.uploaded_bytes ≡ n) ⊎ (item' ≡ item))
      × (entered ≡ true
          → (item'.phase ≡ confirming) × (item.phase ≢ confirming) × (0 < total) × (total ≤ n))
      × (item.phase ≢ confirming → item'.phase ≡ confirming → entered ≡ true)
unfolding record_item_upload
record_item_upload-forward n total now item = ground arith

abbrev pub IsSettled : ItemState → Type 0
IsSettled item = (item.phase ≡ completed) ⊎ (item.phase ≡ failed) ⊎ (item.phase ≡ stopped)

-- One record before and after the end of the task by an error.
abbrev pub Settles : ItemState → ItemState → Type 0
Settles item item' =
    IsSettled item'
    × (item.phase ≡ completed → item' ≡ item)
    × (item.phase ≡ failed → item' ≡ item)
    × (item'.downloaded_bytes ≡ item.downloaded_bytes)
    × (item'.uploaded_bytes ≡ item.uploaded_bytes)

abbrev pub AllPairs {ℓ} : {A : Type ℓ} → (A → A → Type 0) → List A → List A → Type 0
AllPairs R [] [] = Unit
AllPairs R (x ∷ xs) (y ∷ ys) = R x y × AllPairs R xs ys
AllPairs R [] (y ∷ ys) = ⊥
AllPairs R (x ∷ xs) [] = ⊥

finish_item-Settles : (item : ItemState) → Settles item (finish_item item)
unfolding finish_item
finish_item-Settles item = ground arith

finish_all-Settles : (xs : List ItemState) → AllPairs Settles xs (map finish_item xs)
finish_all-Settles [] = tt
finish_all-Settles (item ∷ xs) = (finish_item-Settles item, finish_all-Settles xs)

-- A task that ends with an error leaves every file completed, failed or stopped: those that were
-- completed or failed exactly as they were, and the others stopped with their byte counts kept.
pub finish_items-Settles :
    (t : Items) (error : TaskError)
    → AllPairs Settles t.item_states (finish_items t (some error)).item_states
unfolding finish_items
finish_items-Settles t error = finish_all-Settles t.item_states
