-- ===== src/Batch/Meter.antt =====
-- The transfer meter of core/tasks/batchtfile/item_progress.go. Times are nanoseconds of one clock.
pub mod Window
use save_any_bot.Prelude.{
  ℕ, suc, ◌+◌, ◌-◌, Bool, true, false, ◌&&◌, Option, none, some, List, [], ◌∷◌, ◌++◌, ltb, leb,
  if◌then◌else◌,
}

abbrev pub transfer_speed_window : ℕ
transfer_speed_window = 5_000_000_000

abbrev pub transfer_sample_period : ℕ
transfer_sample_period = 250_000_000

pub record TransferSample : Type 0 where
  pub at : ℕ
  pub bytes : ℕ

pub record TransferMeter : Type 0 where
  pub samples : List TransferSample
  pub latest : TransferSample
  pub has_data : Bool

abbrev pub zero_sample : TransferSample
zero_sample = record { at = 0; bytes = 0 }

abbrev pub empty_meter : TransferMeter
empty_meter = record { samples = []; latest = zero_sample; has_data = false }

unfoldable pub reset : TransferMeter → TransferMeter
reset m = empty_meter

-- `samples[len-1]`, for a list with a first entry.
abbrev pub last_of : TransferSample → List TransferSample → TransferSample
last_of x [] = x
last_of x (y ∷ ys) = last_of y ys

-- The loop that drops the samples older than the window, down to one. `at.Before(now - window)`.
unfoldable pub trim : ℕ → TransferSample → List TransferSample → List TransferSample
trim now x [] = x ∷ []
trim now x (y ∷ ys) =
    let rest = trim now y ys in if ltb (x.at + transfer_speed_window) now then rest else x ∷ y ∷ ys

append_sample : TransferSample → List TransferSample → TransferSample → List TransferSample
append_sample x xs s =
    if leb transfer_sample_period (s.at - (last_of x xs).at) then xs ++ s ∷ [] else xs

add_sample : List TransferSample → TransferSample → List TransferSample
unfolding trim append_sample
add_sample [] s = s ∷ []
add_sample (x ∷ xs) s = trim s.at x (append_sample x xs s)

restart : TransferMeter → ℕ → TransferMeter
unfolding reset
restart m transferred = if m.has_data && ltb transferred m.latest.bytes then reset m else m

take_sample : TransferMeter → ℕ → ℕ → TransferMeter
unfolding add_sample
take_sample m now transferred =
    let at : ℕ = if m.has_data && ltb now m.latest.at then m.latest.at else now in
    let sample : TransferSample = record { at = at; bytes = transferred } in
    record { samples = add_sample m.samples sample; latest = sample; has_data = true }

-- The method `record`.
unfoldable pub record_transfer : TransferMeter → ℕ → ℕ → TransferMeter
unfolding restart take_sample
record_transfer m now transferred = take_sample (restart m transferred) now transferred

speed_since : TransferSample → List TransferSample → TransferSample → Option (ℕ × ℕ)
speed_since none_yet [] last = none
speed_since none_yet (first ∷ _) last =
    if leb last.at first.at
    then none
    else if leb last.bytes first.bytes
    then none
    else some (last.bytes - first.bytes, last.at - first.at)

-- `speed`: bytes over nanoseconds as a fraction, and `none` for 0.
unfoldable pub speed : TransferMeter → Option (ℕ × ℕ)
unfolding speed_since
speed m = if m.has_data then speed_since m.latest m.samples m.latest else none
