-- ===== src/Watch/Watcher/Stability.antt =====
-- When the debouncing of cmd/watch/watcher.go submits a file.
use save_any_bot.Prelude.{
  ℕ, ◌≡◌, refl, ap, Bool, true, false, String, Option, none, some, List, [], ◌∷◌, ◌++◌, str_eq,
  str_eq_refl, str_eq_iff, if◌then◌else◌, get, get-put, get-delete, arith, ◌⊎◌, inl, inr,
}
use save_any_bot.Watch.Watcher.{
  Watcher, Stat, missing, directory, regular, FsEvent, new_watcher, cancel_pending, schedule_upload,
  start_timer, Submission, job_for, maybe_upload, compare_size, still_changing, submit_stable,
  changed, handle_event,
}

-- A timer of a file fires, with whether the context is done and what `os.Stat` then finds.
pub data Happening : Type 0 where
  fires : Bool → String → Stat → Happening
  event : FsEvent → Stat → List String → Happening

abbrev pub is_removal : FsEvent → Bool
is_removal e = if e.is_remove then true else e.is_rename

size_of : Stat → Option ℕ
size_of missing = none
size_of directory = none
size_of (regular n) = some n

-- The size that the latest firing for a file found, of a history that is newest first, unless the
-- file was removed or renamed since.
unfoldable pub last_seen : String → List Happening → Option ℕ
unfolding size_of
last_seen p [] = none
last_seen p (fires true q s ∷ hs) = last_seen p hs
last_seen p (fires false q s ∷ hs) =
    let rest = last_seen p hs in if str_eq q p then size_of s else rest
last_seen p (event e s files ∷ hs) =
    let rest = last_seen p hs in
    if is_removal e then (if str_eq e.name p then none else rest) else rest

module _ (rel : String → Option String) where
  unfoldable pub happen : Watcher → Happening → Submission
  happen w (fires done p s) = maybe_upload rel w done p s
  happen w (event e s files) = handle_event rel w e s files

  -- The watcher after a history that is newest first.
  unfoldable pub after : Bool → List Happening → Watcher
  after r [] = new_watcher r
  after r (h ∷ hs) = (happen (after r hs) h).watcher

  abbrev pub Remembers : Watcher → List Happening → Type 0
  Remembers w hs = (p : String) (n : ℕ) → get p w.last_size ≡ some n → last_seen p hs ≡ some n

  compare_size-Remembers :
      (w : Watcher) (q : String) (size : ℕ) (hs : List Happening) (old : Option ℕ)
      → Remembers w hs
      → Remembers (compare_size rel w q size old).watcher (fires false q (regular size) ∷ hs)
  unfolding last_seen size_of compare_size still_changing submit_stable start_timer
  compare_size-Remembers w q size hs none x p n h =
      ground (arith, x p n, get-put p q size w.last_size, str_eq_iff q p)
  compare_size-Remembers w q size hs (some old) x p n h =
      ground
        (arith, x p n, get-put p q size w.last_size, get-delete p q w.last_size, str_eq_iff q p)

  fires-Remembers :
      (w : Watcher) (done : Bool) (q : String) (s : Stat) (hs : List Happening)
      → Remembers w hs
      → Remembers (maybe_upload rel w done q s).watcher (fires done q s ∷ hs)
  unfolding last_seen size_of maybe_upload cancel_pending
  fires-Remembers w true q s hs x p n h = x p n h
  fires-Remembers w false q missing hs x p n h =
      ground (arith, x p n, get-delete p q w.last_size, str_eq_iff q p)
  fires-Remembers w false q directory hs x p n h =
      ground (arith, x p n, get-delete p q w.last_size, str_eq_iff q p)
  fires-Remembers w false q (regular size) hs x p n h =
      compare_size-Remembers w q size hs (get q w.last_size) x p n h

  changed-last_size :
      (w : Watcher) (e : FsEvent) (s : Stat) (files : List String)
      → (changed rel w e s files).watcher.last_size ≡ w.last_size
  unfolding changed schedule_upload start_timer
  changed-last_size w e missing files = refl
  changed-last_size w e directory files = refl
  changed-last_size w e (regular size) files = refl

  event-Remembers :
      (w : Watcher) (e : FsEvent) (s : Stat) (files : List String) (hs : List Happening)
      → Remembers w hs
      → Remembers (handle_event rel w e s files).watcher (event e s files ∷ hs)
  unfolding last_seen handle_event cancel_pending
  event-Remembers w e s files hs x p n h = ground (
    arith,
    x p n,
    get-delete p e.name w.last_size,
    str_eq_iff e.name p,
    ap (get p) (changed-last_size w e s files),
  )

  after-Remembers : (r : Bool) (hs : List Happening) → Remembers (after r hs) hs
  unfolding after happen new_watcher
  after-Remembers r [] p n h = unfold get in ground arith
  after-Remembers r (fires done q s ∷ hs) p n h =
      fires-Remembers (after r hs) done q s hs (after-Remembers r hs) p n h
  after-Remembers r (event e s files ∷ hs) p n h =
      event-Remembers (after r hs) e s files hs (after-Remembers r hs) p n h

  compare_size-jobs :
      (w : Watcher) (p : String) (n : ℕ) (old : Option ℕ)
      → ((compare_size rel w p n old).jobs ≡ []) ⊎ (old ≡ some n)
  unfolding compare_size still_changing
  compare_size-jobs w p n none = inl refl
  compare_size-jobs w p n (some old) = ground arith

  -- What the history of a firing that submits must have been.
  abbrev pub WasStable : List Happening → Bool → String → Stat → Type 0
  WasStable hs done p s = (n : ℕ) × (done ≡ false) × (s ≡ regular n) × (last_seen p hs ≡ some n)

  fires-WasStable :
      (w : Watcher) (hs : List Happening) (done : Bool) (p : String) (s : Stat)
      → Remembers w hs
      → ((maybe_upload rel w done p s).jobs ≡ []) ⊎ WasStable hs done p s
  unfolding maybe_upload
  fires-WasStable w hs true p s x = inl refl
  fires-WasStable w hs false p missing x = inl refl
  fires-WasStable w hs false p directory x = inl refl
  fires-WasStable w hs false p (regular n) x = elim (compare_size-jobs w p n (get p w.last_size)) [
    | inl e ↦ inl e
    | inr e ↦ inr (n, refl, refl, x p n e)
  ]

  -- From the start of the watcher, after any history of events and firings, the firing of a file's timer
  -- submits nothing unless the context is live, the file is a regular one of some
  -- size, and the latest firing for it saw that same size, with no removal or renaming since.
  pub maybe_upload-WasStable :
      (r : Bool) (hs : List Happening) (done : Bool) (p : String) (s : Stat)
      → ((maybe_upload rel (after r hs) done p s).jobs ≡ []) ⊎ WasStable hs done p s
  maybe_upload-WasStable r hs done p s =
      fires-WasStable (after r hs) hs done p s (after-Remembers r hs)

  -- Two firings in a row for a file that keeps its size submit it exactly once, whatever was
  -- remembered of it before.
  pub maybe_upload-once :
      (w : Watcher) (p relative : String) (n : ℕ)
      → rel p ≡ some relative
      → (maybe_upload rel w false p (regular n)).jobs
          ++ (maybe_upload rel
              (maybe_upload rel w false p (regular n)).watcher
              false
              p
              (regular n)).jobs
        ≡ record { local_path = p; rel_path = relative } ∷ []
  unfolding maybe_upload compare_size still_changing submit_stable start_timer job_for
  maybe_upload-once w p relative n h = once (get p w.last_size)
    where
      once :
          (old : Option ℕ)
          → (compare_size rel w p n old).jobs
              ++ (compare_size rel
                  (compare_size rel w p n old).watcher
                  p
                  n
                  (get p (compare_size rel w p n old).watcher.last_size)).jobs
            ≡ record { local_path = p; rel_path = relative } ∷ []
      once none = ground (arith, h, get-put p p n w.last_size, str_eq_refl p)
      once (some old) =
          ground (arith, h, get-put p p n w.last_size, get-delete p p w.last_size, str_eq_refl p)
