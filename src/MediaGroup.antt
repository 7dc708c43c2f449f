-- ===== src/MediaGroup.antt =====
-- client/bot/handlers/media_group.go: the files of a media group are collected until a timer fires. A timer whose
-- time has come runs `processMediaGroup` in a goroutine of its own, which may wait for the lock; so a
-- fire and the run that follows it are two steps, with others between them.
pub mod Conserves
pub mod Live
mod Examples
use save_any_bot.Prelude.{
  ℕ, zero, suc, Bool, true, false, not, ◌&&◌, String, Option, none, some, List, [], ◌∷◌, ◌++◌, ltb,
  ◌==◌, keep, length, if◌then◌else◌,
}

pub record MediaGroupKey : Type 0 where
  pub chat_id : ℕ
  pub user_id : ℕ
  pub group_id : ℕ

unfoldable pub same_key : MediaGroupKey → MediaGroupKey → Bool
same_key a b = a.chat_id == b.chat_id && a.user_id == b.user_id && a.group_id == b.group_id

-- A timer that was started, until it is stopped or fires.
pub record Timer : Type 0 where
  pub number : ℕ
  pub key : MediaGroupKey

pub record MediaGroupHandler {ℓ} (F : Type ℓ) : Type ℓ where
  pub groups : MediaGroupKey → List F
  pub timers : MediaGroupKey → Option ℕ
  pub timeout : Option ℕ
  pub started : List Timer
  pub next_number : ℕ
  pub running : List MediaGroupKey

-- What becomes of the files of a group.
pub data Handed {ℓ} (F : Type ℓ) : Type ℓ where
  reply_failed : List F → Handed F
  single_task : F → Handed F
  batch_task : List F → Handed F
  asks_storage : Bool → List F → Handed F
  keyboard_failed : List F → Handed F

-- The once of `SetupTimeout`; seconds.
unfoldable pub setup_timeout : Option ℕ → ℕ → Option ℕ
setup_timeout (some t) seconds = some t
setup_timeout none seconds = some (if ltb seconds 1 then 1 else seconds)

unfoldable pub set_timer :
    MediaGroupKey → Option ℕ → (MediaGroupKey → Option ℕ) → MediaGroupKey → Option ℕ
unfolding same_key
set_timer key o timers k = if same_key key k then o else timers k

-- `Stop` has an effect on a timer that has not fired.
unfoldable pub stop_timer : Option ℕ → List Timer → List Timer
stop_timer none ts = ts
stop_timer (some n) ts = keep (λ t. not (t.number == n)) ts

unfoldable pub has_number : ℕ → List Timer → Option MediaGroupKey
has_number n [] = none
has_number n (t ∷ ts) = let rest = has_number n ts in if t.number == n then some t.key else rest

module _ {ℓ} {F : Type ℓ} where
  abbrev pub new_handler : MediaGroupHandler F
  new_handler = record {
    groups = λ k. [];
    timers = λ k. none;
    timeout = none;
    started = [];
    next_number = 0;
    running = [];
  }

  unfoldable pub add_to_group :
      MediaGroupKey → F → (MediaGroupKey → List F) → MediaGroupKey → List F
  unfolding same_key
  add_to_group key file groups k = if same_key key k then groups k ++ file ∷ [] else groups k

  -- A file of a group that arrives, up to the return of `handleGroupMediaMessage`.
  unfoldable pub collect_file : MediaGroupHandler F → MediaGroupKey → F → MediaGroupHandler F
  unfolding add_to_group set_timer stop_timer
  collect_file m key file = record m {
    groups = add_to_group key file m.groups;
    timers = set_timer key (some m.next_number) m.timers;
    started =
        stop_timer (m.timers key) m.started ++ (record { number = m.next_number; key = key }) ∷ [];
    next_number = suc m.next_number;
  }

  -- A message of a group: its media may be of a kind that is not saved, the user may not be loaded, and
  -- the file may not be made; `seconds` is the configured timeout.
  unfoldable pub handle_group_media_message :
      MediaGroupHandler F
      → ℕ
      → Bool
      → Option String
      → Option F
      → MediaGroupKey
      → MediaGroupHandler F × Option String
  unfolding collect_file setup_timeout
  handle_group_media_message m seconds false user file key =
      (record m { timeout = setup_timeout m.timeout seconds }, none)
  handle_group_media_message m seconds true (some e) file key =
      (record m { timeout = setup_timeout m.timeout seconds }, some e)
  handle_group_media_message m seconds true none none key =
      (record m { timeout = setup_timeout m.timeout seconds }, none)
  handle_group_media_message m seconds true none (some file) key =
      (collect_file (record m { timeout = setup_timeout m.timeout seconds }) key file, none)

  unfoldable pub start_run : MediaGroupHandler F → ℕ → Option MediaGroupKey → MediaGroupHandler F
  start_run m n none = m
  start_run m n (some key) = record m {
    started = keep (λ t. not (t.number == n)) m.started;
    running = key ∷ m.running;
  }

  -- The time of a started timer has come.
  unfoldable pub fire : MediaGroupHandler F → ℕ → MediaGroupHandler F
  unfolding start_run has_number
  fire m n = start_run m n (has_number n m.started)

  unfoldable pub without_key : MediaGroupKey → (MediaGroupKey → List F) → MediaGroupKey → List F
  unfolding same_key
  without_key key groups k = if same_key key k then [] else groups k

  -- The part of `processMediaGroup` that holds the lock: the files that it takes, and what it leaves.
  unfoldable pub take_group : MediaGroupHandler F → MediaGroupKey → List F × MediaGroupHandler F
  unfolding without_key set_timer
  take_group m key = (
    m.groups key,
    record m { groups = without_key key m.groups; timers = set_timer key none m.timers },
  )

  -- The rest of it: the reply may fail, a storage makes the task at once, else the user is asked.
  unfoldable pub hand_over_group : Bool → Bool → Bool → List F → Option (Handed F)
  hand_over_group replies silent builds [] = none
  hand_over_group false silent builds (f ∷ fs) = some (reply_failed (f ∷ fs))
  hand_over_group true true builds (f ∷ []) = some (single_task f)
  hand_over_group true true builds (f ∷ g ∷ fs) = some (batch_task (f ∷ g ∷ fs))
  hand_over_group true false true (f ∷ fs) = some (asks_storage (ltb 1 (length (f ∷ fs))) (f ∷ fs))
  hand_over_group true false false (f ∷ fs) = some (keyboard_failed (f ∷ fs))

unfoldable pub remove_key : MediaGroupKey → List MediaGroupKey → List MediaGroupKey
unfolding same_key
remove_key key [] = []
remove_key key (k ∷ ks) = let rest = remove_key key ks in if same_key k key then ks else k ∷ rest

unfoldable pub is_running : MediaGroupKey → List MediaGroupKey → Bool
unfolding same_key
is_running key [] = false
is_running key (k ∷ ks) = let rest = is_running key ks in if same_key k key then true else rest

pub data Step {ℓ} (F : Type ℓ) : Type ℓ where
  arrives : MediaGroupKey → F → Step F
  fires : ℕ → Step F
  runs : MediaGroupKey → Step F

-- The files that a run took, by its key.
pub record Taken {ℓ} (F : Type ℓ) : Type ℓ where
  pub key : MediaGroupKey
  pub files : List F

module _ {ℓ} {F : Type ℓ} where
  -- A goroutine that a timer started gets the lock.
  unfoldable pub run_group :
      MediaGroupHandler F → MediaGroupKey → MediaGroupHandler F × List (Taken F)
  unfolding take_group is_running remove_key
  run_group m key =
      let taken = take_group m key in
      if is_running key m.running
      then (
        record taken.1 { running = remove_key key m.running },
        (record { key = key; files = taken.0 }) ∷ [],
      )
      else (m, [])

  unfoldable pub step : MediaGroupHandler F → Step F → MediaGroupHandler F × List (Taken F)
  unfolding collect_file fire run_group
  step m (arrives key file) = (collect_file m key file, [])
  step m (fires n) = (fire m n, [])
  step m (runs key) = run_group m key

  unfoldable pub run : MediaGroupHandler F → List (Step F) → MediaGroupHandler F × List (Taken F)
  unfolding step
  run m [] = (m, [])
  run m (s ∷ ss) = let r = step m s in let rest = run r.0 ss in (rest.0, r.1 ++ rest.1)
