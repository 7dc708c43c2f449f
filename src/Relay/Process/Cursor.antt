-- ===== src/Relay/Process/Cursor.antt =====
-- How far `processRelayHistoryMessages` of client/bot/handlers/bot_relay.go comes, and where it leaves the
-- cursor of the relay.
use save_any_bot.Prelude.{
  ℕ, ◌≡◌, ◌≢◌, refl, ap, sym, subst, ◌∙◌, String, Option, none, some, List, [], ◌∷◌, ◌++◌, ◌==◌,
  inl, inr, ◌⊎◌, arith, Bool-cases, Option-cases, if◌then◌else◌,
}
use save_any_bot.Relay.Collect.{RelayMessage}
use save_any_bot.Relay.Collect.Complete.Pages.{last_id}
use save_any_bot.Relay.Store.{
  BotRelay, Tables, Fails, count, same_route, set_cursor, transaction, try, updates_cursor,
  update_bot_relay_last_message_id, record_bot_relay_history, save_history,
}
use save_any_bot.Relay.Store.History.{record_bot_relay_history-cases}
use save_any_bot.Relay.Process.{
  ScanState, Env, ScanError, process_failed, advance_failed, process_payloads, message_payloads,
  record_outcome, advance, after_advance, after_message, process_relay_history_messages,
}

-- The cursor of the row of a relay, if the table has the row on the route.
unfoldable pub cursor_of : BotRelay → List BotRelay → Option (Option ℕ)
unfolding same_route
cursor_of relay [] = none
cursor_of relay (r ∷ rs) =
    let rest = cursor_of relay rs in if same_route relay r then some r.last_message_id else rest

cursor_of-set_cursor :
    (relay : BotRelay) (m : ℕ) (rs : List BotRelay)
    → count (same_route relay) rs ≢ 0
    → cursor_of relay (set_cursor relay m rs) ≡ some (some m)
unfolding cursor_of set_cursor count same_route
cursor_of-set_cursor relay m [] n = absurd (n refl)
cursor_of-set_cursor relay m (r ∷ rs) n = ground (arith, n, cursor_of-set_cursor relay m rs)

-- An advance that gives no error has moved the cursor, any other has changed nothing.
update_cursor-cases :
    (fails : Fails) (s : Tables) (relay : BotRelay) (m : ℕ)
    → let r = update_bot_relay_last_message_id fails s relay m in
      ((r.1 ≡ none) × (cursor_of relay r.0.relays ≡ some (some m)))
      ⊎ ((e : String) × (r.1 ≡ some e) × (r.0 ≡ s))
unfolding update_bot_relay_last_message_id transaction try
update_cursor-cases fails s relay m = elim (Option-cases (fails updates_cursor)) [
  | inl e ↦ elim (Bool-cases (count (same_route relay) s.relays == 0)) [
    | inl z ↦
        inr ("bot relay route changed while scanning", ground (arith, e, z), ground (arith, e, z))
    | inr z ↦
        let present : count (same_route relay) s.relays ≢ 0 = ground (arith, z) in
        inl (ground (arith, e, z, cursor_of-set_cursor relay m s.relays present))
  ]
  | inr e ↦ inr (e.0, ground (arith, e.1), ground (arith, e.1))
]

record_relays :
    (fails : Fails) (s : Tables) (relay : BotRelay) (m : ℕ) (err : Option String) (now : ℕ)
    → (record_bot_relay_history fails s relay m err now).0.relays ≡ s.relays
unfolding save_history
record_relays fails s relay m err now =
    elim (record_bot_relay_history-cases fails s relay m err now) [
      | inl h ↦ ap (λ t. t.relays) h.0
      | inr h ↦ ap (λ t. t.relays) h.0
    ]

-- The cursor of the relay is at this message.
abbrev pub IsAt : BotRelay → ℕ → Tables → Type 0
IsAt relay last s = cursor_of relay s.relays ≡ some (some last)

module _ {ℓ} {M W : Type ℓ} (env : Env M W) where
  unfoldable pub after_all : W × Option String → (W → Option W) → Option W
  after_all (v, none) next = next v
  after_all (v, some e) next = none

  -- The world after the payloads of some messages, which all went well.
  unfoldable pub process_all : W → List (RelayMessage M) → Option W
  unfolding after_all process_payloads message_payloads
  process_all w [] = some w
  process_all w (m ∷ ms) =
      after_all (process_payloads env w (message_payloads env m)) λ v. process_all v ms

  -- Where a scan ends: with all messages, or at the first of the rest, whose payloads were tried.
  pub data Stop (world : W) : List (RelayMessage M) → ScanState W × Option ScanError → Type ℓ where
    at_end : (s : ScanState W) → s.world ≡ world → Stop world [] (s, none)
    at_message :
        (s : ScanState W) (e : ScanError) (m : RelayMessage M) (ms : List (RelayMessage M))
        → s.world ≡ (process_payloads env world (message_payloads env m)).0
        → Stop world (m ∷ ms) (s, some e)

  -- The messages are the finished ones, whose payloads went well, and the rest, where the scan ended;
  -- the cursor is at the last finished one.
  pub record Progress (relay : BotRelay) (last : ℕ) (s : ScanState W) (ms : List (RelayMessage M))
      (t : ScanState W × Option ScanError) : Type ℓ where
    pub finished : List (RelayMessage M)
    pub rest : List (RelayMessage M)
    pub whole : ms ≡ finished ++ rest
    pub world : W
    pub went_well : process_all s.world finished ≡ some world
    pub stop : Stop world rest t
    pub cursor : cursor_of relay t.0.tables.relays ≡ some (some (last_id last finished))

  record_outcome-IsAt :
      (relay : BotRelay) (last : ℕ) (s : ScanState W) (id : ℕ) (p : W × Option String)
      → IsAt relay last s.tables
      → IsAt relay last (record_outcome env relay s id p).tables
  unfolding record_outcome
  record_outcome-IsAt relay last s id (w, err) h =
      ap (cursor_of relay) (record_relays (env.fails w) s.tables relay id err (env.now w)) ∙ h

  stopped :
      (relay : BotRelay) (last : ℕ) (s t : ScanState W) (e : ScanError) (m : RelayMessage M)
      (ms : List (RelayMessage M))
      → t.world ≡ (process_payloads env s.world (message_payloads env m)).0
      → IsAt relay last t.tables
      → Progress relay last s (m ∷ ms) (t, some e)
  unfolding process_all last_id
  stopped relay last s t e m ms w h = record {
    finished = [];
    rest = m ∷ ms;
    whole = refl;
    world = s.world;
    went_well = refl;
    stop = at_message t e m ms w;
    cursor = h;
  }

  further :
      (relay : BotRelay) (last : ℕ) (s t : ScanState W) (m : RelayMessage M)
      (ms : List (RelayMessage M)) (r : ScanState W × Option ScanError)
      → process_payloads env s.world (message_payloads env m) ≡ (t.world, none)
      → Progress relay m.id t ms r
      → Progress relay last s (m ∷ ms) r
  unfolding process_all after_all last_id
  further relay last s t m ms r e p = record {
    finished = m ∷ p.finished;
    rest = p.rest;
    whole = ap (◌∷◌ m) p.whole;
    world = p.world;
    went_well = ap (λ q. after_all q λ v. process_all v p.finished) e ∙ p.went_well;
    stop = p.stop;
    cursor = p.cursor;
  }

  after_message-Progress :
      (relay : BotRelay) (last : ℕ) (s : ScanState W) (m : RelayMessage M)
      (ms : List (RelayMessage M)) (p : W × Option String)
      (next : ScanState W → ScanState W × Option ScanError)
      → process_payloads env s.world (message_payloads env m) ≡ p
      → IsAt relay last s.tables
      → ((t : ScanState W) → IsAt relay m.id t.tables → Progress relay m.id t ms (next t))
      → Progress relay last s (m ∷ ms) (after_message env relay s m.id p next)
  unfolding after_message after_advance advance record_outcome
  after_message-Progress relay last s m ms (w, some e) next q h go =
      stopped relay last s (record_outcome env relay s m.id (w, some e)) (process_failed m.id e) m
        ms (sym (ap (λ r. r.0) q)) (record_outcome-IsAt relay last s m.id (w, some e) h)
  after_message-Progress relay last s m ms (w, none) next q h go =
      let t = record_outcome env relay s m.id (w, none) in
      let at_t : IsAt relay last t.tables = record_outcome-IsAt relay last s m.id (w, none) h in
      let r = update_bot_relay_last_message_id (env.fails w) t.tables relay m.id in
      elim (update_cursor-cases (env.fails w) t.tables relay m.id) [
        | inl ok ↦
            let u : ScanState W = record t { tables = r.0 } in
            subst (λ o. Progress relay last s (m ∷ ms) (after_advance env m.id (u, o) next))
              (sym ok.0) (further relay last s u m ms (next u) q (go u ok.1))
        | inr bad ↦
            let u : ScanState W = record t { tables = r.0 } in
            subst (λ o. Progress relay last s (m ∷ ms) (after_advance env m.id (u, o) next))
              (sym bad.1)
              (stopped relay last s u (advance_failed m.id bad.0) m ms (sym (ap (λ r. r.0) q))
                (ap (λ x. cursor_of relay x.relays) bad.2 ∙ at_t))
      ]

  pub process-Progress :
      (relay : BotRelay) (last : ℕ) (s : ScanState W) (ms : List (RelayMessage M))
      → IsAt relay last s.tables
      → Progress relay last s ms (process_relay_history_messages env relay s ms)
  unfolding process_relay_history_messages process_all last_id
  process-Progress relay last s [] h = record {
    finished = [];
    rest = [];
    whole = refl;
    world = s.world;
    went_well = refl;
    stop = at_end s refl;
    cursor = h;
  }
  process-Progress relay last s (m ∷ ms) h =
      after_message-Progress relay last s m ms
        (process_payloads env s.world (message_payloads env m))
        (λ t. process_relay_history_messages env relay t ms) refl h
        λ t q. process-Progress relay m.id t ms q
