-- ===== src/Batch/Upload/Rising.antt =====
-- The aggregate that core/tasks/batchtfile/upload_progress.go reports only grows.
use save_any_bot.Prelude.{
  ℕ, ◌+◌, ◌≤◌, ◌≡◌, not, Bool, true, false, String, Option, none, some, List, [], ◌∷◌, ◌++◌, ltb,
  if◌then◌else◌, StrMap, get, put, arith,
}
use save_any_bot.Batch.Upload.{
  Uploads, Notice, upload_start, upload_progress, state_change, sum_uploaded, keep_larger,
  upload_callback,
}

-- A call of the callback: the file, the bytes and the total that the storage names, and the time.
pub record Report : Type 0 where
  pub id : String
  pub uploaded : ℕ
  pub total : ℕ
  pub now : ℕ

unfoldable pub report_all : Uploads → List Report → Uploads × List Notice
report_all u [] = (u, [])
report_all u (r ∷ rs) =
    let (u', told) = upload_callback u r.id r.uploaded r.total r.now in
    let (u'', rest) = report_all u' rs in (u'', told ++ rest)

-- Each aggregate is at least the one before it (`low` at first) and at most the total, which is
-- `total`; a start is told only if `fresh`, before any progress.
abbrev pub Rising : Bool → ℕ → ℕ → List Notice → Type 0
Rising fresh total low [] = Unit
Rising fresh total low (upload_start t ∷ ns) =
    (fresh ≡ true) × (t ≡ total) × Rising false total low ns
Rising fresh total low (upload_progress shown t ∷ ns) =
    (fresh ≡ false) × (t ≡ total) × (low ≤ shown) × (shown ≤ total) × Rising false total shown ns
Rising fresh total low (state_change ∷ ns) = Rising fresh total low ns

abbrev or_zero : Option ℕ → ℕ
or_zero none = 0
or_zero (some n) = n

sum_uploaded-put :
    (id : String) (n : ℕ) (m : StrMap ℕ)
    → sum_uploaded (put id n m) + or_zero (get id m) ≡ sum_uploaded m + n
unfolding sum_uploaded put get
sum_uploaded-put id n [] = omega arith
sum_uploaded-put id n ((j, k) ∷ m) = ground (arith, sum_uploaded-put id n m)

sum_uploaded-keep_larger :
    (id : String) (n : ℕ) (m : StrMap ℕ)
    → sum_uploaded m ≤ sum_uploaded (keep_larger (get id m) id n m)
unfolding keep_larger
sum_uploaded-keep_larger id n m = ground (arith, sum_uploaded-put id n m)

-- The least aggregate that can be shown next.
abbrev pub capped_sum : Uploads → ℕ
capped_sum u =
    if ltb u.upload_total_size (sum_uploaded u.uploaded)
    then u.upload_total_size
    else sum_uploaded u.uploaded

callback-Rising :
    (u : Uploads) (r : Report) (rest : List Notice)
    → let (u', told) = upload_callback u r.id r.uploaded r.total r.now in
      Rising (not u'.upload_started) u'.upload_total_size (capped_sum u') rest
      → Rising (not u.upload_started) u.upload_total_size (capped_sum u) (told ++ rest)
unfolding upload_callback
callback-Rising u r rest h = ground (
  arith,
  sum_uploaded-keep_larger r.id r.uploaded u.uploaded,
  sum_uploaded-keep_larger r.id r.total u.uploaded,
)

-- While the total stays the same, reports of any files in any order, late and repeated ones among
-- them, make the tracker see: one start at most, before any progress and with the total, and
-- aggregates that never fall and never pass the total.
pub report_all-Rising :
    (u : Uploads) (rs : List Report)
    → Rising (not u.upload_started) u.upload_total_size (capped_sum u) (report_all u rs).1
unfolding report_all
report_all-Rising u [] = tt
report_all-Rising u (r ∷ rs) =
    callback-Rising u r _ (report_all-Rising (upload_callback u r.id r.uploaded r.total r.now).0 rs)
