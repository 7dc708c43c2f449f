-- ===== src/Watch/Watcher.antt =====
-- The debouncing of cmd/watch/watcher.go. A timer of `time.AfterFunc` is a number: `timers` are those
-- that are neither stopped nor fired, with their files. What `os.Stat` finds, what a walk of a
-- directory visits, the relative path of a file and whether the context is done come from outside.
pub mod Stability
use save_any_bot.Prelude.{
  ℕ, suc, ◌+◌, Bool, true, false, String, Option, none, some, List, [], ◌∷◌, ◌++◌, ◌==◌, str_eq,
  if◌then◌else◌, StrMap, get, put, delete,
}
use save_any_bot.Watch.Uploader.{UploadJob}

pub record Timer : Type 0 where
  pub id : ℕ
  pub file : String

pub record Watcher : Type 0 where
  pub recursive : Bool
  pub next_timer : ℕ
  pub timers : List Timer
  pub pending : StrMap ℕ
  pub last_size : StrMap ℕ

pub data Stat : Type 0 where
  missing directory : Stat
  regular : ℕ → Stat

pub record FsEvent : Type 0 where
  pub name : String
  pub is_create : Bool
  pub is_write : Bool
  pub is_remove : Bool
  pub is_rename : Bool

unfoldable pub new_watcher : Bool → Watcher
new_watcher r = record { recursive = r; next_timer = 0; timers = []; pending = []; last_size = [] }

unfoldable pub remove_timer : ℕ → List Timer → List Timer
remove_timer i [] = []
remove_timer i (t ∷ ts) = let rest = remove_timer i ts in if t.id == i then rest else t ∷ rest

unfoldable pub stop : Option ℕ → List Timer → List Timer
stop none ts = ts
stop (some i) ts = remove_timer i ts

-- `time.AfterFunc`, stored in `pending` over what is there.
unfoldable pub start_timer : Watcher → String → Watcher
start_timer w file = record w {
  next_timer = suc w.next_timer;
  timers = record { id = w.next_timer; file = file } ∷ w.timers;
  pending = put file w.next_timer w.pending;
}

unfoldable pub schedule_upload : Watcher → String → Watcher
unfolding start_timer stop
schedule_upload w file = start_timer (record w { timers = stop (get file w.pending) w.timers }) file

unfoldable pub cancel_pending : Watcher → String → Watcher
unfolding stop
cancel_pending w file = record w {
  timers = stop (get file w.pending) w.timers;
  pending = delete file w.pending;
  last_size = delete file w.last_size;
}

unfoldable pub cleanup : Watcher → Watcher
cleanup w = record w { timers = []; pending = []; last_size = [] }

-- The watcher and the jobs that it submits.
pub record Submission : Type 0 where
  pub watcher : Watcher
  pub jobs : List UploadJob

unfoldable pub job_for : String → Option String → List UploadJob
job_for file none = []
job_for file (some rel) = record { local_path = file; rel_path = rel } ∷ []

module _ (rel : String → Option String) where
  unfoldable pub still_changing : Watcher → String → ℕ → Submission
  unfolding start_timer
  still_changing w file size = record {
    watcher = start_timer (record w { last_size = put file size w.last_size }) file;
    jobs = [];
  }

  unfoldable pub submit_stable : Watcher → String → Submission
  unfolding job_for
  submit_stable w file = record {
    watcher = record w { pending = delete file w.pending; last_size = delete file w.last_size };
    jobs = job_for file (rel file);
  }

  unfoldable pub compare_size : Watcher → String → ℕ → Option ℕ → Submission
  unfolding still_changing submit_stable
  compare_size w file size none = still_changing w file size
  compare_size w file size (some prev) =
      if prev == size then submit_stable w file else still_changing w file size

  unfoldable pub maybe_upload : Watcher → Bool → String → Stat → Submission
  unfolding compare_size cancel_pending
  maybe_upload w true file s = record { watcher = w; jobs = [] }
  maybe_upload w false file missing = record { watcher = cancel_pending w file; jobs = [] }
  maybe_upload w false file directory = record { watcher = cancel_pending w file; jobs = [] }
  maybe_upload w false file (regular size) = compare_size w file size (get file w.last_size)

  -- The files that a recursive walk visits, in order, while the context is not done.
  unfoldable pub scan_existing : List String → List UploadJob
  unfolding job_for
  scan_existing [] = []
  scan_existing (f ∷ fs) = job_for f (rel f) ++ scan_existing fs

  changed : Watcher → FsEvent → Stat → List String → Submission
  unfolding schedule_upload scan_existing
  changed w e missing files = record { watcher = w; jobs = [] }
  changed w e directory files = record {
    watcher = w;
    jobs = if e.is_create then (if w.recursive then scan_existing files else []) else [];
  }
  changed w e (regular size) files = record { watcher = schedule_upload w e.name; jobs = [] }

  unfoldable pub handle_event : Watcher → FsEvent → Stat → List String → Submission
  unfolding changed cancel_pending
  handle_event w e s files =
      if e.is_remove
      then record { watcher = cancel_pending w e.name; jobs = [] }
      else if e.is_rename
      then record { watcher = cancel_pending w e.name; jobs = [] }
      else if e.is_create
      then changed w e s files
      else if e.is_write
      then changed w e s files
      else record { watcher = w; jobs = [] }
