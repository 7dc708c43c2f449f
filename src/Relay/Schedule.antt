-- ===== src/Relay/Schedule.antt =====
-- `scanDueRelays` of client/bot/handlers/bot_relay.go: which relays a tick scans. Times are seconds.
use save_any_bot.Prelude.{
  ℕ, ◌-◌, ◌*◌, ◌≡◌, ◌≢◌, refl, ap, sym, subst, ◌≤◌, ◌<◌, ◌⊎◌, inl, inr, Bool-cases, Bool, true,
  false, not, Option, none, some, List, [], ◌∷◌, ltb, ◌==◌, keep, All, if◌then◌else◌, arith,
}
use save_any_bot.Relay.Store.{BotRelay}

abbrev pub default_relay_scan_interval_mins : ℕ
default_relay_scan_interval_mins = 5

unfoldable pub interval_minutes : BotRelay → ℕ
interval_minutes r =
    if ltb r.scan_interval_minutes 1
    then default_relay_scan_interval_mins
    else r.scan_interval_minutes

-- The map `lastScan`, by the ID of the relay.
abbrev pub LastScan : Type 0
LastScan = ℕ → Option ℕ

unfoldable pub put_scan : LastScan → ℕ → ℕ → LastScan
put_scan last id now i = if i == id then some now else last i

unfoldable pub is_due : LastScan → ℕ → BotRelay → Bool
unfolding interval_minutes
is_due last now r =
    if r.enabled
    then elim (last r.id) [ none ↦ true | some t ↦ not (ltb (now - t) (interval_minutes r * 60)) ]
    else false

-- The relays that are scanned, one after the other, and the map afterwards.
unfoldable pub scan_due_relays : LastScan → ℕ → List BotRelay → List BotRelay × LastScan
unfolding is_due put_scan
scan_due_relays last now [] = ([], last)
scan_due_relays last now (r ∷ rs) =
    let skipped = scan_due_relays last now rs in
    let rest = scan_due_relays (put_scan last r.id now) now rs in
    if is_due last now r then (r ∷ rest.0, rest.1) else skipped

abbrev OtherId : ℕ → BotRelay → Type 0
OtherId id r = r.id ≢ id

abbrev pub DistinctIds : List BotRelay → Type 0
DistinctIds [] = Unit
DistinctIds (r ∷ rs) = All (OtherId r.id) rs × DistinctIds rs

-- The seconds between two scans of a relay: its minutes, or five if it has none.
pub data Interval (r : BotRelay) : ℕ → Type 0 where
  given : 1 ≤ r.scan_interval_minutes → Interval r (r.scan_interval_minutes * 60)
  by_default : r.scan_interval_minutes ≡ 0 → Interval r 300

-- A relay that is enabled, and that was never scanned, or not for its interval.
pub data Due (last : LastScan) (now : ℕ) (r : BotRelay) : Type 0 where
  never_scanned : r.enabled ≡ true → last r.id ≡ none → Due last now r
  long_ago :
      (t seconds : ℕ)
      → r.enabled ≡ true
      → last r.id ≡ some t
      → Interval r seconds
      → seconds ≤ now - t
      → Due last now r

-- One that is not enabled, or that was scanned within its interval.
pub data Waits (last : LastScan) (now : ℕ) (r : BotRelay) : Type 0 where
  disabled : r.enabled ≡ false → Waits last now r
  scanned :
      (t seconds : ℕ)
      → last r.id ≡ some t
      → Interval r seconds
      → now - t < seconds
      → Waits last now r

-- The relays of a list that are scanned: those that are due, in their order.
pub data Picks (last : LastScan) (now : ℕ) : List BotRelay → List BotRelay → Type 0 where
  ended : Picks last now [] []
  scans :
      (r : BotRelay) (rs ss : List BotRelay)
      → Due last now r
      → Picks last now rs ss
      → Picks last now (r ∷ rs) (r ∷ ss)
  passes :
      (r : BotRelay) (rs ss : List BotRelay)
      → Waits last now r
      → Picks last now rs ss
      → Picks last now (r ∷ rs) ss

-- The maps agree on the relay.
abbrev Agrees : LastScan → LastScan → BotRelay → Type 0
Agrees a b r = a r.id ≡ b r.id

put_scan_other :
    (last : LastScan) (id now : ℕ) (rs : List BotRelay)
    → All (OtherId id) rs
    → All (Agrees (put_scan last id now) last) rs
unfolding put_scan
put_scan_other last id now [] h = tt
put_scan_other last id now (r ∷ rs) h = (ground (arith, h.0), put_scan_other last id now rs h.1)

keep-Agrees :
    (a b : LastScan) (now : ℕ) (rs : List BotRelay)
    → All (Agrees a b) rs
    → keep (is_due a now) rs ≡ keep (is_due b now) rs
unfolding is_due
keep-Agrees a b now [] h = refl
keep-Agrees a b now (r ∷ rs) h = ground (arith, h.0, keep-Agrees a b now rs h.1)

scan_due_relays-keep :
    (last : LastScan) (now : ℕ) (rs : List BotRelay)
    → DistinctIds rs
    → (scan_due_relays last now rs).0 ≡ keep (is_due last now) rs
unfolding scan_due_relays
scan_due_relays-keep last now [] d = refl
scan_due_relays-keep last now (r ∷ rs) d =
    let e = scan_due_relays-keep last now rs d.1 in
    let f = scan_due_relays-keep (put_scan last r.id now) now rs d.1 in
    let g =
      keep-Agrees (put_scan last r.id now) last now rs (put_scan_other last r.id now rs d.0) in
    ground (arith, e, f, g)

interval_minutes-Interval : (r : BotRelay) → Interval r (interval_minutes r * 60)
unfolding interval_minutes
interval_minutes-Interval r = elim (Bool-cases (ltb r.scan_interval_minutes 1)) [
  | inl e ↦ rw e (by_default (ground (arith, e)))
  | inr e ↦ rw e (given (ground (arith, e)))
]

is_due-cases :
    (last : LastScan) (now : ℕ) (r : BotRelay)
    → ((is_due last now r ≡ true) × Due last now r)
      ⊎ ((is_due last now r ≡ false) × Waits last now r)
unfolding is_due
is_due-cases last now r = go r.enabled refl (last r.id) refl
  where
    go :
        (b : Bool)
        → r.enabled ≡ b
        → (o : Option ℕ) → last r.id ≡ o
        → let due =
            if b
            then elim o as (λ x. Bool) [
              | none ↦ true
              | some t ↦ not (ltb (now - t) (interval_minutes r * 60))
            ]
            else false in
          ((due ≡ true) × Due last now r) ⊎ ((due ≡ false) × Waits last now r)
    go false p o q = inr (refl, disabled p)
    go true p none q = inl (refl, never_scanned p q)
    go true p (some t) q = elim (Bool-cases (ltb (now - t) (interval_minutes r * 60))) [
      | inl e ↦ inr (ap not e, scanned t _ q (interval_minutes-Interval r) (ground (arith, e)))
      | inr e ↦ inl (ap not e, long_ago t _ p q (interval_minutes-Interval r) (ground (arith, e)))
    ]

keep-Picks :
    (last : LastScan) (now : ℕ) (rs : List BotRelay) → Picks last now rs (keep (is_due last now) rs)
keep-Picks last now [] = ended
keep-Picks last now (r ∷ rs) = elim (is_due-cases last now r) [
  | inl (e, d) ↦ rw (e, keep) (scans r rs _ d (keep-Picks last now rs))
  | inr (e, d) ↦ rw (e, keep) (passes r rs _ d (keep-Picks last now rs))
]

unfoldable pub has_relay : ℕ → List BotRelay → Bool
has_relay id [] = false
has_relay id (r ∷ rs) = let rest = has_relay id rs in if id == r.id then true else rest

scan_due_relays-map :
    (last : LastScan) (now : ℕ) (rs : List BotRelay) (id : ℕ)
    → (scan_due_relays last now rs).1 id
      ≡ (if has_relay id (scan_due_relays last now rs).0 then some now else last id)
unfolding scan_due_relays has_relay put_scan
scan_due_relays-map last now [] id = refl
scan_due_relays-map last now (r ∷ rs) id = ground (
  arith,
  scan_due_relays-map last now rs id,
  scan_due_relays-map (put_scan last r.id now) now rs id,
)

-- For relays of distinct IDs: the relays that a tick scans are, in their order, the enabled ones that
-- were never scanned before the tick or not for their interval, which is five minutes if they name
-- none; and the map then has the time of the tick for exactly these, and is as it was for all others.
pub scan_due_relays-Picks :
    (last : LastScan) (now : ℕ) (rs : List BotRelay)
    → DistinctIds rs
    → Picks last now rs (scan_due_relays last now rs).0
      × ((id : ℕ)
          → (scan_due_relays last now rs).1 id
            ≡ (if has_relay id (scan_due_relays last now rs).0 then some now else last id))
scan_due_relays-Picks last now rs d = (
  subst (Picks last now rs) (sym (scan_due_relays-keep last now rs d)) (keep-Picks last now rs),
  scan_due_relays-map last now rs,
)
