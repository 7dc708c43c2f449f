-- ===== src/Relay/Examples.antt =====
-- Examples for the relay of deep links.
use save_any_bot.Prelude.{
  if◌then◌else◌, ok, ℕ, ◌≡◌, ◌≢◌, refl, true, false, String, Option, none, some, List, [], ◌∷◌,
  length, take, arith,
}
use save_any_bot.Relay.Collect.{
  RelayMessage, Page, fetched, collected, out_of_fuel, sort_messages, collect, scan_item,
}
use save_any_bot.Relay.Collect.Ends.{collect-ne-out_of_fuel}
use save_any_bot.Relay.Collect.Sorted.{IsScan, collect-IsScan}
use save_any_bot.Relay.Collect.Complete.Pages.{Descends, above, last_id}
use save_any_bot.Relay.Collect.Complete.{serve, collect-serve}
use save_any_bot.Relay.Store.{BotRelay, Fails, empty_tables, same_route, saves_history}
use save_any_bot.Relay.Store.Integrity.{
  Op, creates, advances, records, run, run-IsSound, empty_tables-IsSound,
}
use save_any_bot.Relay.Store.Integrity.Sound.{IsSound}
use save_any_bot.Relay.Process.{Env, ScanState, scan_relay}
use save_any_bot.Relay.Process.Cursor.{IsAt, Progress, cursor_of}
use save_any_bot.Relay.Process.Resume.{scan_relay-resumes}
use save_any_bot.Relay.Dialogue.{
  document, Update, user_sender, Event, arrives, quiet_fires, process,
}
use save_any_bot.Relay.Dialogue.Settles.{Settles}
use save_any_bot.Relay.Schedule.{LastScan, Picks, has_relay, scan_due_relays, scan_due_relays-Picks}
use save_any_bot.Relay.Api.{
  pos, BotRelayRequest, Lookup, resolve_bot_relay, with_defaults, find_relay, put_relay, post,
}
use save_any_bot.Relay.Api.Bounds.{IsValid, resolve_bot_relay-IsValid}
use save_any_bot.Relay.Api.Handlers.{Keeps, to_list, serve_request, serve_request-Keeps}
use save_any_bot.Relay.Api.Update.{Ends, put_relay-Ends}

abbrev message : ℕ → RelayMessage String
message id = record { id = id; content = some "a link" }

abbrev history : List (RelayMessage String)
history =
    message 14
    ∷ message 13
    ∷ message 12
    ∷ message 11
    ∷ message 9
    ∷ message 8
    ∷ message 7
    ∷ message 6
    ∷ message 5
    ∷ message 4
    ∷ message 3
    ∷ message 1
    ∷ []

history-Descends : Descends history
history-Descends = omega arith

two_pages :
    collect (serve history) (some 8)
    ≡ collected (message 9 ∷ message 11 ∷ message 12 ∷ message 13 ∷ message 14 ∷ [])
unfolding collect serve scan_item
two_pages = refl

collect-serve_example :
    collect (serve history) (some 2) ≡ collected (sort_messages (above 2 history))
collect-serve_example = collect-serve history 2 history-Descends

-- A server that always gives the same full page.
abbrev stuck : ℕ → ℕ → Page String
stuck k offset = fetched (take 10 history)

collect-ne-out_of_fuel_example : collect stuck (some 2) ≢ out_of_fuel
collect-ne-out_of_fuel_example = collect-ne-out_of_fuel stuck (some 2)

collect-IsScan_example : IsScan (some 2) (collect stuck (some 2))
collect-IsScan_example = collect-IsScan stuck (some 2)

abbrev relay : BotRelay
relay = record {
  id = 1;
  user_id = 7;
  source_chat_id = 100;
  source_chat = "news";
  target_bot_id = 200;
  target_bot = "files_bot";
  enabled = true;
  timeout_seconds = 900;
  quiet_seconds = 5;
  scan_interval_minutes = 5;
  last_message_id = some 2;
}

abbrev never_fails : Fails
never_fails s = none

-- The rows of the history cannot be written.
abbrev history_fails : Fails
history_fails saves_history = some "disk full"
history_fails s = none

abbrev ops : List (Fails × Op)
ops =
    (never_fails, creates relay)
    ∷ (never_fails, creates relay)
    ∷ (never_fails, records relay 3 none 10)
    ∷ (history_fails, records relay 4 (some "timed out") 11)
    ∷ (never_fails, advances relay 3)
    ∷ []

run-IsSound_example : IsSound (run empty_tables ops)
run-IsSound_example = run-IsSound empty_tables ops empty_tables-IsSound

-- The world is the list of the payloads that were relayed; the fourth fails.
abbrev relay_payload : List String → String → List String × Option String
relay_payload (a ∷ b ∷ c ∷ ps) p = (a ∷ b ∷ c ∷ ps, some "timed out")
relay_payload ps p = (p ∷ ps, none)

abbrev env : Env String (List String)
env = record {
  payloads = λ m. m ∷ [];
  process = relay_payload;
  now = λ w. length w;
  fails = λ w. never_fails;
}

abbrev start : ScanState (List String)
start = record {
  tables = record { relays = relay ∷ []; history = []; next_relay_id = 2; next_history_id = 1 };
  world = [];
}

start_IsAt : IsAt relay 2 start.tables
unfolding cursor_of same_route
start_IsAt = refl

scan_relay-resumes_example :
    (p : Progress env relay 2 start
      (sort_messages (above 2 history))
      (scan_relay env true none (serve history) relay start))
    × (collect (serve history) (some (last_id 2 p.finished)) ≡ collected p.rest)
scan_relay-resumes_example =
    scan_relay-resumes env history relay 2 start history-Descends refl start_IsAt

abbrev answer : Update String
answer = record {
  message = some (record {
    id = 31;
    reply_to = some 30;
    media = some (document (some "a.pdf"));
    says_pending = false;
  });
  is_out = false;
  is_edit = false;
  from_user_chat = true;
  chat_id = 200;
  sender = user_sender 200;
}

abbrev answers : List (Event String)
answers = quiet_fires ∷ arrives answer ∷ quiet_fires ∷ []

abbrev last_scan : LastScan
last_scan i = none

scan_due_relays-Picks_example :
    Picks last_scan 60 (relay ∷ []) (scan_due_relays last_scan 60 (relay ∷ [])).0
    × ((id : ℕ)
        → (scan_due_relays last_scan 60 (relay ∷ [])).1 id ≡ (
            if has_relay id (scan_due_relays last_scan 60 (relay ∷ [])).0
            then some 60
            else last_scan id))
scan_due_relays-Picks_example = scan_due_relays-Picks last_scan 60 (relay ∷ []) (tt, tt)

abbrev lookup : Lookup
lookup = record {
  owner = λ id. some "disk";
  has_storage = λ id name. true;
  userbot = true;
  channel = λ name. ok (record { id = 101; name = name });
  bot = λ name. ok (record { id = 200; name = name });
}

abbrev request : BotRelayRequest
request = record {
  user_id = 7;
  source_chat = "other_news";
  target_bot = "files_bot";
  enabled = true;
  timeout_seconds = pos 0;
  quiet_seconds = pos 10;
  scan_interval_minutes = pos 0;
}

abbrev accepted : BotRelay
accepted = record {
  id = 0;
  user_id = 7;
  source_chat_id = 101;
  source_chat = "other_news";
  target_bot_id = 200;
  target_bot = "files_bot";
  enabled = true;
  timeout_seconds = 900;
  quiet_seconds = 10;
  scan_interval_minutes = 5;
  last_message_id = none;
}

is_accepted : resolve_bot_relay lookup (with_defaults request) ≡ ok accepted
unfolding resolve_bot_relay with_defaults
is_accepted = refl

resolve_bot_relay-IsValid_example : IsValid accepted
resolve_bot_relay-IsValid_example = resolve_bot_relay-IsValid lookup request accepted is_accepted

serve_request-Keeps_example :
    Keeps (serve_request never_fails lookup (to_list none post (some request)) empty_tables).0
serve_request-Keeps_example =
    serve_request-Keeps never_fails lookup (to_list none post (some request)) empty_tables
      (empty_tables-IsSound, tt)

put_relay-Ends_example :
    Ends never_fails start.tables relay
      (resolve_bot_relay lookup (with_defaults request))
      (put_relay never_fails lookup start.tables relay request)
put_relay-Ends_example = put_relay-Ends never_fails lookup start.tables relay request found
  where
    found : find_relay 1 (relay ∷ []) ≡ some relay
    found = unfold find_relay in refl
