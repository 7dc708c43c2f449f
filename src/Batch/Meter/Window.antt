-- ===== src/Batch/Meter/Window.antt =====
-- The samples that the meter of core/tasks/batchtfile/item_progress.go keeps: how they are spaced,
-- how many they are, and what the speed is computed from.
use save_any_bot.Prelude.{
  ℕ, ◌+◌, ◌-◌, ◌*◌, ◌≤◌, ◌<◌, ◌≡◌, refl, true, false, List, [], ◌∷◌, ◌++◌, arith, length, ltb,
  if◌then◌else◌, inl, inr, Bool-cases, ◌&&◌,
}
use save_any_bot.Batch.Meter.{
  TransferSample, TransferMeter, transfer_speed_window, transfer_sample_period, last_of, trim,
  append_sample, add_sample, restart, take_sample, record_transfer, reset, empty_meter,
}

-- Each sample is a period after the one before it and has at least its bytes; the last is no later
-- and no larger than `top`.
abbrev pub Spaced : TransferSample → TransferSample → List TransferSample → Type 0
Spaced top x [] = (x.at ≤ top.at) × (x.bytes ≤ top.bytes)
Spaced top x (y ∷ ys) =
    (x.at + transfer_sample_period ≤ y.at) × (x.bytes ≤ y.bytes) × Spaced top y ys

Spaced-le :
    (top x : TransferSample) (xs : List TransferSample)
    → Spaced top x xs
    → (x.at + length xs * transfer_sample_period ≤ top.at) × (x.bytes ≤ top.bytes)
Spaced-le top x [] h = (omega arith, h.1)
Spaced-le top x (y ∷ ys) h = omega (arith, Spaced-le top y ys h.2)

Spaced-raise :
    (top s x : TransferSample) (xs : List TransferSample)
    → top.at ≤ s.at
    → top.bytes ≤ s.bytes
    → Spaced top x xs
    → Spaced s x xs
Spaced-raise top s x [] p q h = omega arith
Spaced-raise top s x (y ∷ ys) p q h = (h.0, h.1, Spaced-raise top s y ys p q h.2)

Spaced-append :
    (top s x : TransferSample) (xs : List TransferSample)
    → top.at ≤ s.at
    → top.bytes ≤ s.bytes
    → Spaced top x xs
    → transfer_sample_period ≤ s.at - (last_of x xs).at
    → Spaced s x (xs ++ s ∷ [])
Spaced-append top s x [] p q h k = omega arith
Spaced-append top s x (y ∷ ys) p q h k = (h.0, h.1, Spaced-append top s y ys p q h.2 k)

-- The first sample is inside the window, or the only one.
abbrev pub InWindow : ℕ → List TransferSample → Type 0
InWindow now [] = Unit
InWindow now (x ∷ []) = Unit
InWindow now (x ∷ y ∷ ys) = now ≤ x.at + transfer_speed_window

abbrev pub SpacedList : TransferSample → List TransferSample → Type 0
SpacedList top [] = Unit
SpacedList top (x ∷ xs) = Spaced top x xs

trim-Spaced :
    (top x : TransferSample) (xs : List TransferSample) (now : ℕ)
    → Spaced top x xs
    → SpacedList top (trim now x xs) × InWindow now (trim now x xs) × (0 < length (trim now x xs))
unfolding trim
trim-Spaced top x [] now h = (h, tt, omega arith)
trim-Spaced top x (y ∷ ys) now h = ground (arith, trim-Spaced top y ys now h.2)

-- What holds of a meter.
pub record Inv (m : TransferMeter) : Type 0 where
  pub spaced : SpacedList m.latest m.samples
  pub in_window : InWindow m.latest.at m.samples
  pub filled : m.has_data ≡ true → 0 < length m.samples
  pub empty : m.has_data ≡ false → m.samples ≡ []

append_sample-Spaced :
    (top s x : TransferSample) (xs : List TransferSample)
    → top.at ≤ s.at
    → top.bytes ≤ s.bytes
    → Spaced top x xs
    → Spaced s x (append_sample x xs s)
unfolding append_sample
append_sample-Spaced top s x xs p q h =
    ground (arith, Spaced-append top s x xs p q h, Spaced-raise top s x xs p q h)

add_sample-Spaced :
    (top s : TransferSample) (xs : List TransferSample)
    → top.at ≤ s.at
    → top.bytes ≤ s.bytes
    → SpacedList top xs
    → SpacedList s (add_sample xs s)
      × InWindow s.at (add_sample xs s)
      × (0 < length (add_sample xs s))
unfolding add_sample
add_sample-Spaced top s [] p q h = omega arith
add_sample-Spaced top s (x ∷ xs) p q h =
    trim-Spaced s x (append_sample x xs s) s.at (append_sample-Spaced top s x xs p q h)

pub empty_meter-Inv : Inv empty_meter
empty_meter-Inv = record { spaced = tt; in_window = tt; filled = λ e. cc; empty = λ e. refl }

restart-Inv :
    (m : TransferMeter) (n : ℕ)
    → Inv m
    → Inv (restart m n) × ((restart m n).has_data ≡ true → (restart m n).latest.bytes ≤ n)
unfolding restart reset
restart-Inv m n v = elim (Bool-cases (m.has_data && ltb n m.latest.bytes)) [
  | inl e ↦ rw (e, restart) (empty_meter-Inv, λ p. omega arith)
  | inr e ↦ rw (e, restart) (v, λ p. ground arith)
]

take_sample-Inv :
    (m : TransferMeter) (now n : ℕ)
    → (m.has_data ≡ true → m.latest.bytes ≤ n)
    → Inv m
    → Inv (take_sample m now n)
unfolding take_sample
take_sample-Inv m now n h v = record {
  spaced = added.0;
  in_window = added.1;
  filled = λ _. added.2;
  empty = λ e. cc;
}
  where
    sample : TransferSample
    sample = record {
      at = if m.has_data && ltb now m.latest.at then m.latest.at else now;
      bytes = n;
    }

    added :
        SpacedList sample (add_sample m.samples sample)
        × InWindow sample.at (add_sample m.samples sample)
        × (0 < length (add_sample m.samples sample))
    added = elim (Bool-cases m.has_data) [
      | inl e ↦ add_sample-Spaced m.latest sample m.samples (ground arith) (h e) v.spaced
      | inr e ↦
          add_sample-Spaced sample sample m.samples (omega arith) (omega arith) (rw (v.empty e) tt)
    ]

pub record_transfer-Measures :
    (m : TransferMeter) (now n : ℕ) → (record_transfer m now n).latest.bytes ≡ n
unfolding record_transfer take_sample
record_transfer-Measures m now n = refl

pub record_transfer-Inv : (m : TransferMeter) (now n : ℕ) → Inv m → Inv (record_transfer m now n)
unfolding record_transfer
record_transfer-Inv m now n v =
    let (v', h) = restart-Inv m n v in take_sample-Inv (restart m n) now n h v'

-- A meter fed with transfers, each the time and the bytes so far.
unfoldable pub feed : TransferMeter → List (ℕ × ℕ) → TransferMeter
feed m [] = m
feed m ((now, n) ∷ fs) = feed (record_transfer m now n) fs

feed-Inv : (m : TransferMeter) (fs : List (ℕ × ℕ)) → Inv m → Inv (feed m fs)
unfolding feed
feed-Inv m [] v = v
feed-Inv m ((now, n) ∷ fs) v = feed-Inv (record_transfer m now n) fs (record_transfer-Inv m now n v)

Inv-few :
    (m : TransferMeter) (xs : List TransferSample)
    → SpacedList m.latest xs
    → InWindow m.latest.at xs
    → length xs ≤ 21
Inv-few m [] h w = omega arith
Inv-few m (x ∷ []) h w = omega arith
Inv-few m (x ∷ y ∷ ys) h w = omega (arith, Spaced-le m.latest x (y ∷ ys) h)

-- However often and at whatever times and counts a meter is fed, its samples are a period apart and
-- have growing byte counts, the first is within the window before the latest transfer or is the only
-- one, and there are 21 at most.
pub feed-window :
    (fs : List (ℕ × ℕ))
    → let m = feed empty_meter fs in
      SpacedList m.latest m.samples × InWindow m.latest.at m.samples × (length m.samples ≤ 21)
feed-window fs =
    let v = feed-Inv empty_meter fs empty_meter-Inv in
    (
      v.spaced,
      v.in_window,
      Inv-few (feed empty_meter fs) (feed empty_meter fs).samples v.spaced v.in_window,
    )
