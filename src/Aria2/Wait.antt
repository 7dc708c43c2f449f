-- ===== src/Aria2/Wait.antt =====
-- `getStatus`, `waitForDownload` and `Execute` of core/tasks/aria2dl/execute.go. A tick of the loop is
-- what the context and the client's two calls give at that time; a list of ticks that ends while
-- the download runs leaves the loop waiting.
pub mod Follow
use save_any_bot.Prelude.{
  ℕ, Bool, true, false, String, Option, none, some, List, [], ◌∷◌, str_eq, if◌then◌else◌, ◌++◌,
}

pub record Status : Type 0 where
  pub gid : String
  pub status : String
  pub error_code : String
  pub error_message : String
  pub followed_by : List String

pub data AriaError : Type 0 where
  cancelled was_removed : AriaError
  not_told not_found : Bool → AriaError
  download_error : String → String → AriaError
  transfer_error : String → AriaError

pub data Answer : Type 0 where
  told : Status → Answer
  refused : AriaError → Answer

-- `TellStatus` for a GID, and `TellStopped`, of which either may fail; `interrupted` tells whether the
-- error of `TellStatus` is the cancellation of the context. The errors of `getStatus` wrap that error.
pub record Client : Type 0 where
  pub tell_status : String → Option Status
  pub tell_stopped : Option (List Status)
  pub interrupted : Bool

pub data Tick : Type 0 where
  done : Tick
  ticks : Client → Tick

unfoldable pub find_status : Bool → String → List Status → Answer
find_status interrupted gid [] = refused (not_found interrupted)
find_status interrupted gid (s ∷ ss) =
    let rest = find_status interrupted gid ss in if str_eq s.gid gid then told s else rest

unfoldable pub search_stopped : Bool → String → Option (List Status) → Answer
unfolding find_status
search_stopped interrupted gid none = refused (not_told interrupted)
search_stopped interrupted gid (some stopped) = find_status interrupted gid stopped

ask_stopped : Client → String → Option Status → Answer
unfolding search_stopped
ask_stopped c gid (some s) = told s
ask_stopped c gid none = search_stopped c.interrupted gid c.tell_stopped

unfoldable pub get_status : Client → String → Answer
unfolding ask_stopped
get_status c gid = ask_stopped c gid (c.tell_status gid)

-- What one status means for the loop.
pub data Verdict : Type 0 where
  completed keeps_on : Verdict
  follows : String → Verdict
  fails : AriaError → Verdict

unfoldable pub after_complete : List String → Verdict
after_complete [] = completed
after_complete (g ∷ gs) = follows g

unfoldable pub judge : Status → Verdict
unfolding after_complete
judge s =
    if str_eq s.status "complete"
    then after_complete s.followed_by
    else if str_eq s.status "error"
    then fails (download_error s.error_message s.error_code)
    else if str_eq s.status "removed"
    then fails was_removed
    else keeps_on

unfoldable pub judge_answer : Answer → Verdict
unfolding judge
judge_answer (refused e) = fails e
judge_answer (told s) = judge s

-- The end of the loop, with the GID that the task then has.
pub data Ending : Type 0 where
  waiting : Ending
  finished : Ending
  failed : AriaError → Ending

pub record Waited : Type 0 where
  pub gid : String
  pub ending : Ending

-- The loop goes on with the GID that a verdict gives, or ends.
unfoldable pub go_on : String → (String → Waited) → Verdict → Waited
go_on gid next completed = record { gid = gid; ending = finished }
go_on gid next keeps_on = next gid
go_on gid next (follows g) = next g
go_on gid next (fails e) = record { gid = gid; ending = failed e }

unfoldable pub wait_for_download : String → List Tick → Waited
unfolding get_status judge_answer go_on
wait_for_download gid [] = record { gid = gid; ending = waiting }
wait_for_download gid (done ∷ ts) = record { gid = gid; ending = failed cancelled }
wait_for_download gid (ticks c ∷ ts) =
    go_on gid (λ g. wait_for_download g ts) (judge_answer (get_status c gid))

-- What `Execute` asks of aria2 for a GID besides the statuses.
pub data Request : Type 0 where
  force_remove remove_download_result : String → Request

-- The requests, and what the tracker's `OnDone` is given, if `Execute` has returned.
pub record Executed : Type 0 where
  pub requests : List Request
  pub outcome : Option (Option AriaError)

-- `errors.Is` with `context.Canceled`.
unfoldable pub is_canceled : AriaError → Bool
is_canceled cancelled = true
is_canceled (not_told interrupted) = interrupted
is_canceled (not_found interrupted) = interrupted
is_canceled was_removed = false
is_canceled (download_error a b) = false
is_canceled (transfer_error a) = false

unfoldable pub after_failure : String → AriaError → Executed
unfolding is_canceled
after_failure gid e = record {
  requests = if is_canceled e then force_remove gid ∷ remove_download_result gid ∷ [] else [];
  outcome = some (some e);
}

after_transfer : String → Option String → Executed
after_transfer gid none = record { requests = remove_download_result gid ∷ []; outcome = some none }
after_transfer gid (some e) = record { requests = []; outcome = some (some (transfer_error e)) }

after_wait : Option String → String → Ending → Executed
unfolding after_failure after_transfer
after_wait transfer gid waiting = record { requests = []; outcome = none }
after_wait transfer gid (failed e) = after_failure gid e
after_wait transfer gid finished = after_transfer gid transfer

-- `Execute`, with the error that `transferFiles` ends with for a GID.
unfoldable pub execute : (String → Option String) → String → List Tick → Executed
unfolding wait_for_download after_wait
execute transfer gid ts =
    let w = wait_for_download gid ts in after_wait (transfer w.gid) w.gid w.ending
