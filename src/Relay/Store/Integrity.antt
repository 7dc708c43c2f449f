-- ===== src/Relay/Store/Integrity.antt =====
-- What every sequence of the operations of database/bot_relay.go keeps of the tables.
pub mod Rows
pub mod Updates
pub mod Sound
pub mod Removal
use save_any_bot.Prelude.{
  All-keep, ℕ, zero, suc, ◌+◌, ◌≤◌, ◌<◌, ◌≡◌, ◌≢◌, refl, ap, sym, subst, ◌∙◌, Bool, true, false,
  not, ◌||◌, ◌&&◌, String, Option, none, some, List, [], ◌∷◌, ◌++◌, ltb, ◌==◌, keep, All,
  All-append, All-map, if◌then◌else◌, arith, Bool-cases, inl, inr, ◌⊎◌,
}
use save_any_bot.Relay.Store.{
  BotRelay, BotRelayHistory, Tables, Fails, Statement, empty_tables, done, aborted, transaction,
  try, count, on_route, has_id, same_route, is_taken, of_relay, update_rows, set_cursor,
  upsert_history, history_of, save_history, clear_history, create_bot_relay, update_bot_relay,
  update_bot_relay_last_message_id, record_bot_relay_history, delete_bot_relay, creates_relay,
  updates_relay, deletes_history, deletes_relay, updates_cursor, bot_relay_history_limit, stale_ids,
}
use save_any_bot.Relay.Store.History.{
  IsBounded, count-le, count-append, count-keep, record_bot_relay_history-cases,
  record_bot_relay_history-IsBounded, stays,
}
use save_any_bot.Relay.Store.Integrity.Rows.{
  UniqueRoutes, UniqueIds, UniqueRoutes-keep, UniqueIds-keep, UniqueRoutes-append, UniqueIds-append,
  count-set_cursor_id, set_cursor-UniqueRoutes, set_cursor-UniqueIds, set_cursor-below,
}
use save_any_bot.Relay.Store.Integrity.Updates.{
  count-update_rows_id, update_rows-UniqueIds, update_rows-below, update_rows-absent,
  update_rows-UniqueRoutes,
}
use save_any_bot.Relay.Store.Integrity.Sound.{
  IsOwned, IsSound, create_bot_relay-IsSound, update_bot_relay_last_message_id-IsSound,
  update_bot_relay-IsSound,
}
use save_any_bot.Relay.Store.Integrity.Removal.{
  delete_bot_relay-IsSound, record_bot_relay_history-IsSound,
}

pub data Op : Type 0 where
  creates : BotRelay → Op
  updates : BotRelay → Bool → Op
  advances : BotRelay → ℕ → Op
  records : BotRelay → ℕ → Option String → ℕ → Op
  deletes : ℕ → Op

unfoldable pub apply : Fails → Tables → Op → Tables × Option String
unfolding create_bot_relay update_bot_relay update_bot_relay_last_message_id
    record_bot_relay_history delete_bot_relay
apply fails s (creates relay) = create_bot_relay fails s relay
apply fails s (updates relay b) = update_bot_relay fails s relay b
apply fails s (advances relay m) = update_bot_relay_last_message_id fails s relay m
apply fails s (records relay m err now) = record_bot_relay_history fails s relay m err now
apply fails s (deletes id) = delete_bot_relay fails s id

-- One operation after the other, each with the failures of its statements.
unfoldable pub run : Tables → List (Fails × Op) → Tables
unfolding apply
run s [] = s
run s ((fails, op) ∷ ops) = run (apply fails s op).0 ops

apply-IsSound : (fails : Fails) (s : Tables) (op : Op) → IsSound s → IsSound (apply fails s op).0
unfolding apply
apply-IsSound fails s (creates relay) g = create_bot_relay-IsSound fails s relay g
apply-IsSound fails s (updates relay b) g = update_bot_relay-IsSound fails s relay b g
apply-IsSound fails s (advances relay m) g =
    update_bot_relay_last_message_id-IsSound fails s relay m g
apply-IsSound fails s (records relay m err now) g =
    record_bot_relay_history-IsSound fails s relay m err now g
apply-IsSound fails s (deletes id) g = delete_bot_relay-IsSound fails s id g

-- Whatever operations run on sound tables, and whichever of their statements fail: no two relays are on
-- one route or have one ID, every row of the history belongs to a relay of the table, and no relay has
-- more than 20 of them.
pub run-IsSound : (s : Tables) (ops : List (Fails × Op)) → IsSound s → IsSound (run s ops)
unfolding run
run-IsSound s [] g = g
run-IsSound s ((fails, op) ∷ ops) g =
    run-IsSound (apply fails s op).0 ops (apply-IsSound fails s op g)

pub empty_tables-IsSound : IsSound empty_tables
unfolding count
empty_tables-IsSound = record {
  routes = tt;
  ids = tt;
  given = tt;
  owned = tt;
  bounded = λ id. omega arith;
}
