-- ===== src/Watch/Attempts/Outcome.antt =====
-- What the end of `uploadWithRetry` in cmd/watch/uploader.go says of the storage.
use save_any_bot.Prelude.{
  ◌⊎◌, inl, inr, ℕ, zero, suc, ◌+◌, ◌≤◌, ◌<◌, ◌≡◌, refl, ap, ◌∙◌, ◌≢◌, Bool, true, false, String,
  Option, none, some, if◌then◌else◌, StrMap, get, get-put, str_eq_refl, arith,
}
use save_any_bot.Watch.Uploader.{UploadJob}
use save_any_bot.Watch.Attempts.{
  LocalFile, not_opened, not_examined, directory, regular, Saving, saves, save_fails, Moment,
  Target, UploadError, cancelled, is_directory, cannot_open, cannot_stat, cannot_save, Uploaded,
  upload, upload_to, save_to, upload_from, upload_with_retry, after_upload,
}

save_to-stored :
    (store : StrMap String) (path content : String) (s : Saving)
    → (save_to store path content s).error ≡ none
    → get path (save_to store path content s).store ≢ none
unfolding save_to
save_to-stored store path content saves e =
    ground (arith, get-put path path content store, str_eq_refl path)
save_to-stored store path content (save_fails x left) e = ground arith

upload_to-stored :
    (o : Bool) (store : StrMap String) (path content : String) (s : Saving) (old : Option String)
    → get path store ≡ old
    → (upload_to o store path content s old).error ≡ none
    → get path (upload_to o store path content s old).store ≢ none
unfolding upload_to
upload_to-stored false store path content s (some x) h e = ground arith
upload_to-stored false store path content s none h e = save_to-stored store path content s e
upload_to-stored true store path content s (some x) h e = save_to-stored store path content s e
upload_to-stored true store path content s none h e = save_to-stored store path content s e

module _ (join : String → String → String) where
  upload-stored :
      (t : Target) (store : StrMap String) (job : UploadJob) (f : LocalFile) (s : Saving)
      → (upload join t store job f s).error ≡ none
      → get (join t.dest_dir job.rel_path) (upload join t store job f s).store ≢ none
  unfolding upload
  upload-stored t store job (not_opened x) s e = ground arith
  upload-stored t store job (not_examined x) s e = ground arith
  upload-stored t store job directory s e = ground arith
  upload-stored t store job (regular content) s e =
      upload_to-stored t.overwrite store (join t.dest_dir job.rel_path) content s
        (get (join t.dest_dir job.rel_path) store) refl e

  -- What `n` attempts from the `k`th on, after one that ended with `last`, come to.
  record Ends (t : Target) (job : UploadJob) (n k : ℕ) (last : Option UploadError) (r : Uploaded)
      : Type 0 where
    at_most : r.attempts ≤ k + n
    success :
        (last ≡ none → 0 < n) → r.error ≡ none → get (join t.dest_dir job.rel_path) r.store ≢ none
    all_used : r.error ≢ none → r.error ≢ some cancelled → r.attempts ≡ k + n

  after_upload-Ends :
      (t : Target) (job : UploadJob) (m : Moment) (n k : ℕ) (last e : Option UploadError)
      (r rest : Uploaded)
      → r.error ≡ e
      → (e ≡ none → get (join t.dest_dir job.rel_path) r.store ≢ none)
      → Ends t job n (suc k) e rest
      → Ends t job (suc n) k last (after_upload m n k r e rest)
  unfolding after_upload
  after_upload-Ends t job m n k last none r rest h p x = record {
    at_most = ground arith;
    success = λ a b. p refl;
    all_used = λ a b. ground arith;
  }
  after_upload-Ends t job m n k last (some e) r rest h p x = record {
    at_most = ground (arith, x.at_most);
    success = λ a b. ground (arith, x.success);
    all_used = λ a b. ground (arith, x.all_used);
  }

  upload_from-Ends :
      (t : Target) (job : UploadJob) (at : ℕ → Moment) (n k : ℕ) (last : Option UploadError)
      (store : StrMap String)
      → Ends t job n k last (upload_from join t job at n k last store)
  unfolding upload_from
  upload_from-Ends t job at zero k last store = record {
    at_most = ground arith;
    success = λ a b. ground arith;
    all_used = λ a b. ground arith;
  }
  upload_from-Ends t job at (suc n) k last store =
      let r = upload join t store job (at k).file (at k).saving in
      let rest = upload_from join t job at n (suc k) r.error r.store in
      ended (at k).done_before (after_upload (at k) n k r r.error rest) (
        after_upload-Ends t job (at k) n k last r.error r rest refl
          (upload-stored t store job (at k).file (at k).saving)
          (upload_from-Ends t job at n (suc k) r.error r.store))
    where
      ended :
          (b : Bool) (r : Uploaded)
          → Ends t job (suc n) k last r
          → Ends t job
              (suc n)
              k
              last
              (if b then record { store = store; error = some cancelled; attempts = k } else r)
      ended true r x = record {
        at_most = ground arith;
        success = λ a b. ground arith;
        all_used = λ a b. ground arith;
      }
      ended false r x = x

  -- What `uploadWithRetry` says at its end.
  abbrev pub Says : Target → UploadJob → Uploaded → Type 0
  Says t job r =
      ((r.error ≡ none) × (get (join t.dest_dir job.rel_path) r.store ≢ none))
      ⊎ (r.error ≡ some cancelled)
      ⊎ ((r.error ≢ none) × (r.attempts ≡ t.retry))

  Ends-Says :
      (t : Target) (job : UploadJob) (r : Uploaded) (e : Option UploadError)
      → r.error ≡ e
      → 0 < t.retry
      → Ends t job t.retry 0 none r
      → Says t job r
  Ends-Says t job r none h p x = inl (h, x.success (λ a. p) h)
  Ends-Says t job r (some cancelled) h p x = inr (inl h)
  Ends-Says t job r (some is_directory) h p x =
      inr (inr (ground (arith, h), ground (arith, h, x.all_used)))
  Ends-Says t job r (some (cannot_open e)) h p x =
      inr (inr (ground (arith, h), ground (arith, h, x.all_used)))
  Ends-Says t job r (some (cannot_stat e)) h p x =
      inr (inr (ground (arith, h), ground (arith, h, x.all_used)))
  Ends-Says t job r (some (cannot_save e)) h p x =
      inr (inr (ground (arith, h), ground (arith, h, x.all_used)))

  -- With at least one attempt allowed, `uploadWithRetry` makes no more attempts than that, and either
  -- it reports success and the file's path is in the storage, or it reports the cancellation, or it
  -- reports a failure and has made all of them.
  pub upload_with_retry_lem :
      (t : Target) (job : UploadJob) (at : ℕ → Moment) (store : StrMap String)
      → 0 < t.retry
      → ((upload_with_retry join t job at store).attempts ≤ t.retry)
        × Says t job (upload_with_retry join t job at store)
  unfolding upload_with_retry
  upload_with_retry_lem t job at store h =
      let r = upload_from join t job at t.retry 0 none store in
      let x = upload_from-Ends t job at t.retry 0 none store in
      (ground (arith, x.at_most), Ends-Says t job r r.error refl h x)

  upload-kept :
      (t : Target) (store : StrMap String) (job : UploadJob) (f : LocalFile) (s : Saving)
      (old : String)
      → t.overwrite ≡ false
      → get (join t.dest_dir job.rel_path) store ≡ some old
      → (upload join t store job f s).store ≡ store
  unfolding upload upload_to
  upload-kept t store job (not_opened x) s old o h = refl
  upload-kept t store job (not_examined x) s old o h = refl
  upload-kept t store job directory s old o h = refl
  upload-kept t store job (regular content) s old o h = ground (arith, o, h)

  after_upload-store :
      (m : Moment) (n k : ℕ) (r rest : Uploaded) (e : Option UploadError) (store : StrMap String)
      → r.store ≡ store
      → rest.store ≡ store
      → (after_upload m n k r e rest).store ≡ store
  unfolding after_upload
  after_upload-store m n k r rest none store a b = a
  after_upload-store m n k r rest (some e) store a b = ground (arith, a, b)

  upload_from-kept :
      (t : Target) (job : UploadJob) (at : ℕ → Moment) (n k : ℕ) (last : Option UploadError)
      (store : StrMap String) (old : String)
      → t.overwrite ≡ false
      → get (join t.dest_dir job.rel_path) store ≡ some old
      → (upload_from join t job at n k last store).store ≡ store
  unfolding upload_from after_upload
  upload_from-kept t job at zero k last store old o h = refl
  upload_from-kept t job at (suc n) k last store old o h =
      let r = upload join t store job (at k).file (at k).saving in
      let same : r.store ≡ store = upload-kept t store job (at k).file (at k).saving old o h in
      let rest = upload_from join t job at n (suc k) r.error r.store in
      let kept : rest.store ≡ r.store =
        upload_from-kept t job at n (suc k) r.error r.store old o
          (ground (arith, ap (get (join t.dest_dir job.rel_path)) same, h)) in
      let after : (after_upload (at k) n k r r.error rest).store ≡ store =
        after_upload-store (at k) n k r rest r.error store same (kept ∙ same) in
      ground (arith, after)

  -- Without the overwriting, a path that the storage has when the upload begins keeps its content,
  -- as does all else there, whatever becomes of the local file and of the attempts.
  pub upload_with_retry-kept :
      (t : Target) (job : UploadJob) (at : ℕ → Moment) (store : StrMap String) (old : String)
      → t.overwrite ≡ false
      → get (join t.dest_dir job.rel_path) store ≡ some old
      → (upload_with_retry join t job at store).store ≡ store
  unfolding upload_with_retry
  upload_with_retry-kept t job at store old o h =
      upload_from-kept t job at t.retry 0 none store old o h
