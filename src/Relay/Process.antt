-- ===== src/Relay/Process.antt =====
-- `scanRelay` and `processRelayHistoryMessages` of client/bot/handlers/bot_relay.go, over the tables of
-- Relay.Store. What a payload does outside of these tables (`processRelayPayload`) is a function on the
-- state `W` of the world, and so is the clock.
pub mod Cursor
pub mod Resume
use save_any_bot.Prelude.{ℕ, ◌-◌, Bool, true, false, String, Option, none, some, List, [], ◌∷◌}
use save_any_bot.Relay.Collect.{
  RelayMessage, Page, Collected, collected, failed, did_not_advance, out_of_fuel, collect,
}
use save_any_bot.Relay.Store.{
  BotRelay, Tables, Fails, update_bot_relay_last_message_id, record_bot_relay_history,
}

pub data ScanError : Type 0 where
  no_userbot history_did_not_advance loop_did_not_end : ScanError
  resolve_failed load_failed initialize_failed : String → ScanError
  process_failed advance_failed : ℕ → String → ScanError

unfoldable pub initial_relay_cursor {ℓ} : {M : Type ℓ} → List (RelayMessage M) → ℕ
initial_relay_cursor [] = 0
initial_relay_cursor (m ∷ ms) = m.id - 1

pub record ScanState {ℓ} (W : Type ℓ) : Type ℓ where
  pub tables : Tables
  pub world : W

-- What a scan relies on: the payloads of a message, the relay of one payload, the clock, and the
-- failures of the database.
pub record Env {ℓ} (M W : Type ℓ) : Type ℓ where
  pub payloads : M → List String
  pub process : W → String → W × Option String
  pub now : W → ℕ
  pub fails : W → Fails

module _ {ℓ} {M W : Type ℓ} (env : Env M W) where
  unfoldable pub after_payload : W × Option String → (W → W × Option String) → W × Option String
  after_payload (w, none) next = next w
  after_payload (w, some e) next = (w, some e)

  -- The payloads of one message, up to the first that fails.
  unfoldable pub process_payloads : W → List String → W × Option String
  unfolding after_payload
  process_payloads w [] = (w, none)
  process_payloads w (p ∷ ps) = after_payload (env.process w p) λ v. process_payloads v ps

  unfoldable pub message_payloads : RelayMessage M → List String
  message_payloads m = elim m.content [ none ↦ [] | some c ↦ env.payloads c ]

  -- `record`: an error of the database is only logged.
  unfoldable pub record_outcome : BotRelay → ScanState W → ℕ → W × Option String → ScanState W
  unfolding record_bot_relay_history
  record_outcome relay s id (w, err) = record {
    tables = (record_bot_relay_history (env.fails w) s.tables relay id err (env.now w)).0;
    world = w;
  }

  unfoldable pub advance : BotRelay → ScanState W → ℕ → ScanState W × Option String
  unfolding update_bot_relay_last_message_id
  advance relay s id =
      let r = update_bot_relay_last_message_id (env.fails s.world) s.tables relay id in
      (record s { tables = r.0 }, r.1)

  unfoldable pub after_advance :
      ℕ
      → ScanState W × Option String
      → (ScanState W → ScanState W × Option ScanError)
      → ScanState W × Option ScanError
  after_advance id (s, none) next = next s
  after_advance id (s, some e) next = (s, some (advance_failed id e))

  -- The end of one message: it is recorded, and the cursor moves if its payloads went well.
  unfoldable pub after_message :
      BotRelay
      → ScanState W
      → ℕ
      → W × Option String
      → (ScanState W → ScanState W × Option ScanError)
      → ScanState W × Option ScanError
  unfolding record_outcome advance after_advance
  after_message relay s id (w, some e) next =
      (record_outcome relay s id (w, some e), some (process_failed id e))
  after_message relay s id (w, none) next =
      after_advance id (advance relay (record_outcome relay s id (w, none)) id) next

  unfoldable pub process_relay_history_messages :
      BotRelay → ScanState W → List (RelayMessage M) → ScanState W × Option ScanError
  unfolding after_message process_payloads message_payloads
  process_relay_history_messages relay s [] = (s, none)
  process_relay_history_messages relay s (m ∷ ms) =
      after_message relay s m.id (process_payloads s.world (message_payloads m))
        λ t. process_relay_history_messages relay t ms

  -- The first scan sets the cursor below the messages that it is going to process.
  unfoldable pub after_initialize :
      BotRelay
      → ScanState W × Option String
      → List (RelayMessage M)
      → ScanState W × Option ScanError
  unfolding process_relay_history_messages
  after_initialize relay (s, some e) ms = (s, some (initialize_failed e))
  after_initialize relay (s, none) ms = process_relay_history_messages relay s ms

  unfoldable pub process_from :
      BotRelay → Option ℕ → ScanState W → List (RelayMessage M) → ScanState W × Option ScanError
  unfolding after_initialize advance initial_relay_cursor process_relay_history_messages
  process_from relay none s ms =
      after_initialize relay (advance relay s (initial_relay_cursor ms)) ms
  process_from relay (some last) s ms = process_relay_history_messages relay s ms

  unfoldable pub after_collect :
      BotRelay → ScanState W → Collected M → ScanState W × Option ScanError
  unfolding process_from
  after_collect relay s (failed e) = (s, some (load_failed e))
  after_collect relay s did_not_advance = (s, some history_did_not_advance)
  after_collect relay s out_of_fuel = (s, some loop_did_not_end)
  after_collect relay s (collected ms) = process_from relay relay.last_message_id s ms

  -- `userbot` tells whether there is one, and `peer` is the error of resolving the source channel.
  unfoldable pub scan_relay :
      Bool
      → Option String
      → (ℕ → ℕ → Page M)
      → BotRelay
      → ScanState W
      → ScanState W × Option ScanError
  unfolding after_collect collect
  scan_relay false peer fetch relay s = (s, some no_userbot)
  scan_relay true (some e) fetch relay s = (s, some (resolve_failed e))
  scan_relay true none fetch relay s = after_collect relay s (collect fetch relay.last_message_id)
