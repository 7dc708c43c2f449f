-- ===== src/Watch/Attempts.antt =====
-- `upload` and `uploadWithRetry` of cmd/watch/uploader.go. What the environment does at an attempt is
-- a `Moment`: whether the context is done at each point where it is asked, what the file is, and how
-- the storage saves. The storage is a map from its paths to contents.
pub mod Outcome
use save_any_bot.Prelude.{
  ℕ, zero, suc, ◌+◌, Bool, true, false, String, Option, none, some, List, [], ◌∷◌, ltb,
  if◌then◌else◌, StrMap, get, put,
}
use save_any_bot.Watch.Uploader.{UploadJob}

pub data LocalFile : Type 0 where
  not_opened not_examined : String → LocalFile
  directory : LocalFile
  regular : String → LocalFile

-- A save that fails leaves the storage as it may.
pub data Saving : Type 0 where
  saves : Saving
  save_fails : String → StrMap String → Saving

pub record Moment : Type 0 where
  pub done_before : Bool
  pub file : LocalFile
  pub saving : Saving
  pub done_after : Bool
  pub done_waiting : Bool

pub record Target : Type 0 where
  pub dest_dir : String
  pub overwrite : Bool
  pub retry : ℕ

pub data UploadError : Type 0 where
  cancelled is_directory : UploadError
  cannot_open cannot_stat cannot_save : String → UploadError

pub record Uploaded : Type 0 where
  pub store : StrMap String
  pub error : Option UploadError
  pub attempts : ℕ

save_to : StrMap String → String → String → Saving → Uploaded
save_to store path content saves = record {
  store = put path content store;
  error = none;
  attempts = 1;
}
save_to store path content (save_fails e left) = record {
  store = left;
  error = some (cannot_save e);
  attempts = 1;
}

upload_to : Bool → StrMap String → String → String → Saving → Option String → Uploaded
unfolding save_to
upload_to false store path content s (some _) = record { store = store; error = none; attempts = 1 }
upload_to _ store path content s _ = save_to store path content s

after_upload : Moment → ℕ → ℕ → Uploaded → Option UploadError → Uploaded → Uploaded
after_upload m n k r none rest = record r { attempts = suc k }
after_upload m n k r (some e) rest =
    if m.done_after
    then record r { error = some cancelled; attempts = suc k }
    else if ltb 0 n
    then (if m.done_waiting then record r { error = some cancelled; attempts = suc k } else rest)
    else rest

module _ (join : String → String → String) where
  unfoldable pub upload : Target → StrMap String → UploadJob → LocalFile → Saving → Uploaded
  unfolding upload_to
  upload t store job (not_opened e) s = record {
    store = store;
    error = some (cannot_open e);
    attempts = 1;
  }
  upload t store job (not_examined e) s = record {
    store = store;
    error = some (cannot_stat e);
    attempts = 1;
  }
  upload t store job directory s = record { store = store; error = some is_directory; attempts = 1 }
  upload t store job (regular content) s =
      let path = join t.dest_dir job.rel_path in
      upload_to t.overwrite store path content s (get path store)

  -- The attempts from the `k`th on, of which `n` are left.
  unfoldable pub upload_from :
      Target → UploadJob → (ℕ → Moment) → ℕ → ℕ → Option UploadError → StrMap String → Uploaded
  unfolding after_upload upload
  upload_from t job at zero k last store = record { store = store; error = last; attempts = k }
  upload_from t job at (suc n) k last store =
      let r = upload t store job (at k).file (at k).saving in
      let rest = upload_from t job at n (suc k) r.error r.store in
      if (at k).done_before
      then record { store = store; error = some cancelled; attempts = k }
      else after_upload (at k) n k r r.error rest

  unfoldable pub upload_with_retry : Target → UploadJob → (ℕ → Moment) → StrMap String → Uploaded
  unfolding upload_from
  upload_with_retry t job at store = upload_from t job at t.retry 0 none store
