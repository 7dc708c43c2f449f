-- ===== src/Watch/Examples.antt =====
-- Examples for the upload queue, the attempts and the debouncing of cmd/watch.
use save_any_bot.Prelude.{
  ℕ, ◌<◌, ◌≡◌, true, false, String, Option, some, List, [], ◌∷◌, ltb, str_eq_refl, if◌then◌else◌,
  StrMap, get, put, arith, ◌⊎◌,
}
use save_any_bot.Watch.Uploader.{UploadJob, Uploader, UploaderOptions, new_uploader, submit}
use save_any_bot.Watch.Uploader.Exclusive.{
  count, IsExclusive, run, step, Step, submits, sends, receives, run-new_uploader,
}
use save_any_bot.Watch.Attempts.{regular as regular_file, saves, save_fails, Moment, Target}
use save_any_bot.Watch.Watcher.{regular, maybe_upload}
use save_any_bot.Watch.Watcher.Stability.{
  Happening, fires, after, WasStable, maybe_upload-WasStable,
}

abbrev photo : UploadJob
photo = record { local_path = "/in/photo.jpg"; rel_path = "photo.jpg" }

abbrev no_options : UploaderOptions
no_options = record { workers = 0; retry = 0; retry_delay = 0; queue_size = 0 }

abbrev first_steps : List Step
first_steps = submits photo ∷ sends photo ∷ receives ∷ submits photo ∷ []

waits : 0 < count "/in/photo.jpg" (step (new_uploader no_options) (submits photo)).sending
unfolding count step submit new_uploader get
waits = ground (arith, str_eq_refl "/in/photo.jpg")

run-new_uploader_example : IsExclusive (run (new_uploader no_options) first_steps)
run-new_uploader_example = run-new_uploader no_options first_steps (tt, (waits, (tt, (tt, tt))))

abbrev uploading : Uploader
uploading = record {
  inflight = put "/in/photo.jpg" false [];
  jobs = [];
  queue_size = 64;
  sending = [];
  processing = photo ∷ [];
}

-- Another file is submitted between.
abbrev meanwhile : List Step
meanwhile = submits (record { local_path = "/in/b.jpg"; rel_path = "b.jpg" }) ∷ []

abbrev slash : String → String → String
slash a b = b

abbrev target : Target
target = record { dest_dir = "backup"; overwrite = false; retry = 3 }

-- The first save fails, the second succeeds.
abbrev moment : ℕ → Moment
moment k = record {
  done_before = false;
  file = regular_file "pixels";
  saving = if ltb 0 k then saves else save_fails "timeout" [];
  done_after = false;
  done_waiting = false;
}

abbrev stored : StrMap String
stored = put "photo.jpg" "old pixels" []

abbrev base_name : String → Option String
base_name s = some "photo.jpg"

abbrev seen_once : List Happening
seen_once = fires false "/in/photo.jpg" (regular 10) ∷ []

maybe_upload-WasStable_example :
    ((maybe_upload base_name
        (after base_name true seen_once)
        false
        "/in/photo.jpg"
        (regular 10)).jobs
      ≡ [])
    ⊎ WasStable base_name seen_once false "/in/photo.jpg" (regular 10)
maybe_upload-WasStable_example =
    maybe_upload-WasStable base_name true seen_once false "/in/photo.jpg" (regular 10)
