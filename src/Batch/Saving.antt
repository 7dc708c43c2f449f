-- ===== src/Batch/Saving.antt =====
-- `saveBatchItems` of core/tasks/batchtfile/execute.go: the upload of the downloaded elements of a
-- group in one call of its storage. The storage is given by the progress that it reports, each time
-- for an element by its place, and by the error that it ends with; a storage without such reports
-- reads the files through readers, whose progress is the same list.
pub mod Loops
pub mod Settled
use save_any_bot.Prelude.{
  ℕ, ◌+◌, Bool, true, false, String, Option, none, some, List, [], ◌∷◌, ◌++◌, get_elem?,
  if◌then◌else◌,
}
use save_any_bot.TaskEvent.{TaskError}
use save_any_bot.Batch.Items.{
  Items, update_item, mark_item_failed, mark_item_completed, stage_batch_upload,
}
use save_any_bot.Batch.Upload.{Uploads, Notice, state_change, start_upload, upload_callback}

-- An element and the size of its cache file.
pub record BatchItem : Type 0 where
  pub id : String
  pub size : ℕ

pub record ProgressCall : Type 0 where
  pub place : ℕ
  pub uploaded : ℕ
  pub total : ℕ
  pub now : ℕ

-- A place out of range is ignored.
call_at : Uploads → ProgressCall → Option BatchItem → Uploads × List Notice
call_at u c none = (u, [])
call_at u c (some item) = upload_callback u item.id c.uploaded c.total c.now

unfoldable pub make_calls : List BatchItem → Uploads → List ProgressCall → Uploads × List Notice
unfolding call_at
make_calls elems u [] = (u, [])
make_calls elems u (c ∷ cs) =
    let (u', told) = call_at u c (get_elem? elems c.place) in
    let (u'', rest) = make_calls elems u' cs in (u'', told ++ rest)

unfoldable pub fail_all : TaskError → Items → List BatchItem → Items
fail_all e t [] = t
fail_all e t (b ∷ bs) = fail_all e (update_item t b.id (mark_item_failed stage_batch_upload e)).0 bs

unfoldable pub complete_all : ℕ → Uploads → List BatchItem → Uploads × List Notice
complete_all now u [] = (u, [])
complete_all now u (b ∷ bs) =
    let (u', told) = upload_callback u b.id b.size b.size now in
    let (u'', rest) =
      complete_all now (record u' { items = (update_item u'.items b.id mark_item_completed).0 })
        bs in
    (u'', told ++ rest)

settle_batch : ℕ → List BatchItem → Option TaskError → Uploads → Uploads × List Notice
unfolding fail_all complete_all
settle_batch now elems none u =
    let (u', told) = complete_all now u elems in (u', told ++ state_change ∷ [])
settle_batch now elems (some e) u =
    (record u { items = fail_all e u.items elems }, state_change ∷ [])

-- The uploads after it and what the tracker is told; the error is the one that is given.
unfoldable pub save_batch_items :
    List BatchItem → List ProgressCall → Option TaskError → ℕ → Uploads → Uploads × List Notice
unfolding start_upload make_calls settle_batch
save_batch_items elems calls error now u =
    let (started, first) = start_upload u in
    let (called, told) = make_calls elems started calls in
    let (settled, last) = settle_batch now elems error called in (settled, first ++ (told ++ last))
