-- ===== src/Batch/Upload/Records.antt =====
-- Which records a callback of core/tasks/batchtfile/upload_progress.go changes.
use save_any_bot.Prelude.{
  ℕ, ◌≡◌, refl, ap, ◌∙◌, Bool, true, false, String, [], if◌then◌else◌, arith, str_eq, subst, sym,
  ltb, ◌&&◌,
}
use save_any_bot.Batch.Items.{Items, ItemState, update_item, record_item_upload}
use save_any_bot.Batch.Items.Index.{
  item_of, WellIndexed, KeepsId, after, update_item-item_of, update_item-WellIndexed,
}
use save_any_bot.Batch.Upload.{
  Uploads, start_upload, upload_callback, report, record_upload, callback_tracked,
}

record_item_upload-KeepsId :
    (n total now : ℕ) → KeepsId (λ item. (record_item_upload n total now item).0)
unfolding record_item_upload
record_item_upload-KeepsId n total now item = ground arith

-- `j` keeps its record, and the index is still right.
pub record Spares (j : String) (t t' : Items) : Type 0 where
  pub indexed : WellIndexed t'
  pub same : item_of t' j ≡ item_of t j

pub start_upload-items : (u : Uploads) → (start_upload u).0.items ≡ u.items
unfolding start_upload
start_upload-items u = ground arith

pub update_item-Spares :
    (t : Items) (id j : String) (f : ItemState → ItemState)
    → KeepsId f
    → WellIndexed t
    → str_eq id j ≡ false
    → Spares j t (update_item t id f).0
update_item-Spares t id j f keeps w h = record {
  indexed = update_item-WellIndexed t id f keeps w;
  same =
      update_item-item_of t id f j w ∙ ap (λ b. if b then after f (item_of t j) else item_of t j) h;
}

report-Spares :
    (u : Uploads) (t : Items) (id : String) (n total now : ℕ) (j : String)
    → u.items ≡ t
    → WellIndexed t
    → str_eq id j ≡ false
    → Spares j t (report u id n total now).0.items
unfolding report record_upload
report-Spares u t id n total now j e w h =
    subst (λ s. Spares j t (update_item s id (λ item. (record_item_upload n total now item).0)).0)
      (sym e)
      (update_item-Spares t id j (λ item. (record_item_upload n total now item).0)
        (record_item_upload-KeepsId n total now) w h)

report-WellIndexed :
    (u : Uploads) (t : Items) (id : String) (n total now : ℕ)
    → u.items ≡ t
    → WellIndexed t
    → WellIndexed (report u id n total now).0.items
unfolding report record_upload
report-WellIndexed u t id n total now e w =
    subst (λ s. WellIndexed (update_item s id (λ item. (record_item_upload n total now item).0)).0)
      (sym e)
      (update_item-WellIndexed t id (λ item. (record_item_upload n total now item).0)
        (record_item_upload-KeepsId n total now) w)

-- The callback for one element leaves the records of the others alone, and the index right.
pub callback-Spares :
    (u : Uploads) (id : String) (n total now : ℕ) (j : String)
    → WellIndexed u.items
    → str_eq id j ≡ false
    → Spares j u.items (upload_callback u id n total now).0.items
unfolding upload_callback callback_tracked
callback-Spares u id n total now j w h = either u.tracked
  where
    either :
        (b : Bool)
        → Spares j u.items (if b then callback_tracked u id n total now else (u, [])).0.items
    either true =
        report-Spares (start_upload u).0 u.items id
          (if ltb 0 total && ltb total n then total else n) total now j (start_upload-items u) w h
    either false = record { indexed = w; same = refl }

pub callback-WellIndexed :
    (u : Uploads) (id : String) (n total now : ℕ)
    → WellIndexed u.items
    → WellIndexed (upload_callback u id n total now).0.items
unfolding upload_callback callback_tracked
callback-WellIndexed u id n total now w = either u.tracked
  where
    either :
        (b : Bool) → WellIndexed (if b then callback_tracked u id n total now else (u, [])).0.items
    either true =
        report-WellIndexed (start_upload u).0 u.items id
          (if ltb 0 total && ltb total n then total else n) total now (start_upload-items u) w
    either false = w
