-- ===== src/Batch/Upload.antt =====
-- core/tasks/batchtfile/upload_progress.go: the aggregate upload progress of a batch, for a tracker
-- that shows one (`tracked`). `uploadMu` is held for a whole callback, which is one function here.
pub mod Rising
pub mod Records
use save_any_bot.Prelude.{
  ℕ, ◌+◌, Bool, true, false, ◌&&◌, ◌||◌, not, String, Option, none, some, List, [], ◌∷◌, ◌++◌, ltb,
  if◌then◌else◌, StrMap, get, put,
}
use save_any_bot.Batch.Items.{
  Items, ItemState, update_item, record_item_upload, record_item_downloaded, item_at,
}

pub record Uploads : Type 0 where
  pub items : Items
  pub uploaded : StrMap ℕ
  pub upload_total_size : ℕ
  pub upload_started : Bool
  pub tracked : Bool

-- What the tracker is told, in order.
pub data Notice : Type 0 where
  upload_start : ℕ → Notice
  upload_progress : ℕ → ℕ → Notice
  state_change : Notice

-- `uploadOnce.Do`, if the tracker shows uploads.
unfoldable pub start_upload : Uploads → Uploads × List Notice
start_upload u =
    if not u.tracked || u.upload_started
    then (u, [])
    else (record u { upload_started = true }, upload_start u.upload_total_size ∷ [])

pub sum_uploaded : StrMap ℕ → ℕ
sum_uploaded [] = 0
sum_uploaded ((id, n) ∷ m) = n + sum_uploaded m

keep_larger : Option ℕ → String → ℕ → StrMap ℕ → StrMap ℕ
keep_larger none id n m = put id n m
keep_larger (some previous) id n m = if ltb previous n then put id n m else m

entered : ℕ → ℕ → ℕ → Option ItemState → Bool
entered n total now none = false
entered n total now (some item) = (record_item_upload n total now item).1

-- `recordItemUpload` by ID: the update, and its answer.
record_upload : Items → String → ℕ → ℕ → ℕ → Items × Bool
unfolding entered
record_upload t id n total now = (
  (update_item t id (λ item. (record_item_upload n total now item).0)).0,
  entered n total now (item_at t (get id t.item_index)),
)

report : Uploads → String → ℕ → ℕ → ℕ → Uploads × List Notice
unfolding sum_uploaded keep_larger record_upload
report u id n total now =
    let (items, became_confirming) = record_upload u.items id n total now in
    let uploaded = keep_larger (get id u.uploaded) id n u.uploaded in
    let aggregate = sum_uploaded uploaded in
    let shown = if ltb u.upload_total_size aggregate then u.upload_total_size else aggregate in
    (
      record u { items = items; uploaded = uploaded },
      upload_progress shown u.upload_total_size
          ∷ (if became_confirming then state_change ∷ [] else []),
    )

callback_tracked : Uploads → String → ℕ → ℕ → ℕ → Uploads × List Notice
unfolding start_upload report
callback_tracked u id n total now =
    let (u', started) = start_upload u in
    let capped : ℕ = if ltb 0 total && ltb total n then total else n in
    let (u'', told) = report u' id capped total now in (u'', started ++ told)

-- The function that `uploadCallback` returns, called with counts that are not negative.
unfoldable pub upload_callback : Uploads → String → ℕ → ℕ → ℕ → Uploads × List Notice
unfolding callback_tracked
upload_callback u id n total now = if u.tracked then callback_tracked u id n total now else (u, [])

unfoldable pub record_download_complete : Uploads → String → ℕ → Uploads
record_download_complete u id upload_size = record u {
  items = (update_item u.items id (record_item_downloaded upload_size)).0;
  upload_total_size =
      if ltb 0 upload_size then u.upload_total_size + upload_size else u.upload_total_size;
}
