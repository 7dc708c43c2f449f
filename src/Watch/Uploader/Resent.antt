-- ===== src/Watch/Uploader/Resent.antt =====
-- A file that changes while it is uploaded is sent again in cmd/watch/uploader.go.
use save_any_bot.Prelude.{◌≢◌, All, ◌<◌, ◌≡◌, true, String, some, List, get}
use save_any_bot.Watch.Uploader.{Uploader}
use save_any_bot.Watch.Uploader.Exclusive.{
  count, IsExclusive, Step, submits, sends, gives_up, aborts, finishes, receives,
}

-- A step that is not the end of an upload of the path.
abbrev pub IsOther : String → Step → Type 0
IsOther p (submits job) = Unit
IsOther p (sends job) = Unit
IsOther p (gives_up job) = Unit
IsOther p (aborts job) = job.local_path ≢ p
IsOther p (finishes job) = job.local_path ≢ p
IsOther p receives = Unit

-- The path is being uploaded, and was submitted again.
record IsMarked (p : String) (u : Uploader) : Type 0 where
  exclusive : IsExclusive u
  uploading : 0 < count p u.processing
  again : get p u.inflight ≡ some true

-- Steps of others, up to the end of the upload of the path.
abbrev pub AllOther : String → List Step → Type 0
AllOther p ss = All (IsOther p) ss
