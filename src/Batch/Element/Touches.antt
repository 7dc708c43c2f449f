-- ===== src/Batch/Element/Touches.antt =====
-- The steps of `processElement` of core/tasks/batchtfile/execute.go change the record of their element alone.
use save_any_bot.Prelude.{
  ℕ, suc, ◌+◌, ◌≡◌, refl, ◌∙◌, false, String, Option, none, some, List, [], ◌∷◌, str_eq, arith,
}
use save_any_bot.TaskEvent.{TaskError}
use save_any_bot.Batch.Items.{
  Items, ItemState, FailureStage, stage_cache, update_item, record_item_download,
  record_item_downloaded, mark_item_retry, item_failure_stage,
}
use save_any_bot.Batch.Items.Index.{item_of, WellIndexed, KeepsId, update_item-WellIndexed}
use save_any_bot.Batch.Upload.{Uploads, upload_callback}
use save_any_bot.Batch.Upload.Records.{update_item-Spares, callback-Spares, callback-WellIndexed}
use save_any_bot.Batch.Saving.Loops.{}
use save_any_bot.Batch.Element.{
  Chunk, Report, Attempt, Work, change, record_chunks, callback, report_all, run_attempts,
  after_save, attempt,
}

-- From `t` on only the record of `id` has changed, and the index is right.
pub record Touches (id : String) (t t' : Items) : Type 0 where
  pub indexed : WellIndexed t'
  pub others : (j : String) → str_eq id j ≡ false → item_of t' j ≡ item_of t j

pub Touches-refl : (id : String) (t : Items) → WellIndexed t → Touches id t t
Touches-refl id t w = record { indexed = w; others = λ j n. refl }

pub Touches-trans :
    (id : String) (t t' t'' : Items) → Touches id t t' → Touches id t' t'' → Touches id t t''
Touches-trans id t t' t'' a b = record {
  indexed = b.indexed;
  others = λ j n. b.others j n ∙ a.others j n;
}

pub update_item-Touches :
    (id : String) (t : Items) (f : ItemState → ItemState)
    → KeepsId f
    → WellIndexed t
    → Touches id t (update_item t id f).0
update_item-Touches id t f k w = record {
  indexed = update_item-WellIndexed t id f k w;
  others = λ j n. (update_item-Spares t id j f k w n).same;
}

pub callback-Touches :
    (id : String) (u : Uploads) (n total now : ℕ)
    → WellIndexed u.items
    → Touches id u.items (upload_callback u id n total now).0.items
callback-Touches id u n total now w = record {
  indexed = callback-WellIndexed u id n total now w;
  others = λ j q. (callback-Spares u id n total now j w q).same;
}

abbrev pub items_of : Work → Items
items_of w = w.uploads.items

record_item_download-KeepsId : (n now : ℕ) → KeepsId (record_item_download n now)
unfolding record_item_download
record_item_download-KeepsId n now item = ground arith

pub record_item_downloaded-KeepsId : (n : ℕ) → KeepsId (record_item_downloaded n)
unfolding record_item_downloaded
record_item_downloaded-KeepsId n item = ground arith

mark_item_retry-KeepsId :
    (stage : FailureStage) (n limit : ℕ) (e : TaskError) → KeepsId (mark_item_retry stage n limit e)
unfolding mark_item_retry
mark_item_retry-KeepsId stage n limit e item = refl

pub record_chunks-Touches :
    (id : String) (cs : List Chunk) (w : Work)
    → WellIndexed (items_of w)
    → Touches id (items_of w) (items_of (record_chunks id cs w))
unfolding record_chunks change
record_chunks-Touches id [] w i = Touches-refl id (items_of w) i
record_chunks-Touches id (c ∷ cs) w i =
    let f = record_item_download c.size c.now in
    let x = update_item-Touches id (items_of w) f (record_item_download-KeepsId c.size c.now) i in
    Touches-trans id _ _ _ x (
      record_chunks-Touches id cs (change id f (record w { downloaded = w.downloaded + c.size }))
        x.indexed)

pub report_all-Touches :
    (id : String) (rs : List Report) (w : Work)
    → WellIndexed (items_of w)
    → Touches id (items_of w) (items_of (report_all id rs w))
unfolding report_all callback
report_all-Touches id [] w i = Touches-refl id (items_of w) i
report_all-Touches id (r ∷ rs) w i =
    let x = callback-Touches id w.uploads r.uploaded r.total r.now i in
    Touches-trans id _ _ _ x
      (report_all-Touches id rs (callback id r.uploaded r.total r.now w) x.indexed)

pub change-Touches :
    (id : String) (f : ItemState → ItemState) (w : Work)
    → KeepsId f
    → WellIndexed (items_of w)
    → Touches id (items_of w) (items_of (change id f w))
unfolding change
change-Touches id f w k i = update_item-Touches id (items_of w) f k i

-- What goes on after an attempt touches only the record.
abbrev Goes : String → (FailureStage → Work → Work × FailureStage) → Type 0
Goes id next =
    (st : FailureStage) (v : Work)
    → WellIndexed (items_of v)
    → Touches id (items_of v) (items_of (next st v).0)

pub after_save-Touches :
    (limit : ℕ) (id : String) (n : ℕ) (stage : FailureStage) (o : Option TaskError) (w : Work)
    (next : FailureStage → Work → Work × FailureStage)
    → Goes id next
    → WellIndexed (items_of w)
    → Touches id (items_of w) (items_of (after_save limit id n stage o w next).0)
unfolding after_save
after_save-Touches limit id n stage none w next g i = Touches-refl id (items_of w) i
after_save-Touches limit id n stage (some e) w next g i =
    let found = item_failure_stage w.uploads.items id in
    let x =
      change-Touches id (mark_item_retry found n limit e) w
        (mark_item_retry-KeepsId found n limit e) i in
    Touches-trans id _ _ _ x (g found (change id (mark_item_retry found n limit e) w) x.indexed)

pub attempt-Touches :
    (limit : ℕ) (id : String) (size n : ℕ) (stage : FailureStage) (a : Attempt)
    (o : Option TaskError) (w : Work) (next : FailureStage → Work → Work × FailureStage)
    → Goes id next
    → WellIndexed (items_of w)
    → Touches id (items_of w) (items_of (attempt limit id size n stage a o w next).0)
unfolding attempt callback
attempt-Touches limit id size n stage a (some e) w next g i =
    let x =
      change-Touches id (mark_item_retry stage_cache n limit e) w
        (mark_item_retry-KeepsId stage_cache n limit e) i in
    Touches-trans id _ _ _ x
      (g stage_cache (change id (mark_item_retry stage_cache n limit e) w) x.indexed)
attempt-Touches limit id size n stage a none w next g i =
    let x = callback-Touches id w.uploads 0 size a.first i in
    let v = callback id 0 size a.first w in
    let y = report_all-Touches id a.reports v x.indexed in
    Touches-trans id _ _ _ x (
      Touches-trans id _ _ _ y
        (after_save-Touches limit id n stage a.saved (report_all id a.reports v) next g y.indexed))

pub run_attempts-Touches :
    (limit : ℕ) (id : String) (size n : ℕ) (stage : FailureStage) (as' : List Attempt) (w : Work)
    → WellIndexed (items_of w)
    → Touches id (items_of w) (items_of (run_attempts limit id size n stage as' w).0)
unfolding run_attempts
run_attempts-Touches limit id size n stage [] w i = Touches-refl id (items_of w) i
run_attempts-Touches limit id size n stage (a ∷ as') w i =
    attempt-Touches limit id size (suc n) stage a a.opened w
      (λ st v. run_attempts limit id size (suc n) st as' v)
      (λ st v j. run_attempts-Touches limit id size (suc n) st as' v j) i
