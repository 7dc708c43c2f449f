-- ===== src/Relay/Store.antt =====
-- database/bot_relay.go: the tables of the relays and of their history. IDs, chat IDs and times are
-- numbers that are only compared. `fails` gives the error of a statement that the database refuses.
pub mod History
pub mod Integrity
use save_any_bot.Prelude.{
  ℕ, suc, ◌+◌, Bool, true, false, not, ◌||◌, ◌&&◌, String, Option, none, some, List, [], ◌∷◌, ◌++◌,
  ltb, ◌==◌, map, drop, keep, if◌then◌else◌,
}

pub record BotRelay : Type 0 where
  pub id : ℕ
  pub user_id : ℕ
  pub source_chat_id : ℕ
  pub source_chat : String
  pub target_bot_id : ℕ
  pub target_bot : String
  pub enabled : Bool
  pub timeout_seconds : ℕ
  pub quiet_seconds : ℕ
  pub scan_interval_minutes : ℕ
  pub last_message_id : Option ℕ

pub record BotRelayHistory : Type 0 where
  pub id : ℕ
  pub bot_relay_id : ℕ
  pub message_id : ℕ
  pub success : Bool
  pub error : String
  pub updated_at : ℕ

-- The tables, and the primary keys that are given next.
pub record Tables : Type 0 where
  pub relays : List BotRelay
  pub history : List BotRelayHistory
  pub next_relay_id : ℕ
  pub next_history_id : ℕ

abbrev pub empty_tables : Tables
empty_tables = record { relays = []; history = []; next_relay_id = 1; next_history_id = 1 }

abbrev pub bot_relay_history_limit : ℕ
bot_relay_history_limit = 20

pub data Statement : Type 0 where
  creates_relay updates_relay deletes_history deletes_relay updates_cursor counts_routes
        saves_history plucks_stale deletes_stale :
      Statement

abbrev pub Fails : Type 0
Fails = Statement → Option String

pub data TxResult : Type 0 where
  done : Tables → TxResult
  aborted : String → TxResult

-- A transaction that gives an error is rolled back.
unfoldable pub transaction : Tables → TxResult → Tables × Option String
transaction s (done t) = (t, none)
transaction s (aborted e) = (s, some e)

unfoldable pub try : Option String → TxResult → TxResult
try none r = r
try (some e) r = aborted e

-- The unique index over the source and the target.
unfoldable pub on_route : ℕ → ℕ → BotRelay → Bool
on_route source target r = r.source_chat_id == source && r.target_bot_id == target

unfoldable pub count {ℓ} : {A : Type ℓ} → (A → Bool) → List A → ℕ
count p [] = 0
count p (x ∷ xs) = let rest = count p xs in if p x then suc rest else rest

unfoldable pub create_bot_relay : Fails → Tables → BotRelay → Tables × Option String
unfolding try transaction count on_route
create_bot_relay fails s relay = transaction s (
    try (fails creates_relay) (
      if count (on_route relay.source_chat_id relay.target_bot_id) s.relays == 0
      then done (record s {
        relays = s.relays ++ record relay { id = s.next_relay_id } ∷ [];
        next_relay_id = suc s.next_relay_id;
      })
      else aborted "UNIQUE constraint failed"))

unfoldable pub has_id : ℕ → BotRelay → Bool
has_id id r = r.id == id

unfoldable pub of_relay : ℕ → BotRelayHistory → Bool
of_relay id h = h.bot_relay_id == id

unfoldable pub updated_fields : BotRelay → Bool → BotRelay → BotRelay
updated_fields relay reset_cursor r = record relay {
  id = r.id;
  last_message_id = if reset_cursor then relay.last_message_id else r.last_message_id;
}

unfoldable pub update_rows : BotRelay → Bool → List BotRelay → List BotRelay
unfolding updated_fields
update_rows relay reset_cursor [] = []
update_rows relay reset_cursor (r ∷ rs) =
    (if r.id == relay.id then updated_fields relay reset_cursor r else r)
    ∷ update_rows relay reset_cursor rs

-- Some other row is on the route.
unfoldable pub is_taken : BotRelay → BotRelay → Bool
unfolding on_route
is_taken relay r = not (r.id == relay.id) && on_route relay.source_chat_id relay.target_bot_id r

unfoldable pub clear_history : Fails → ℕ → Tables → TxResult
unfolding try of_relay
clear_history fails id s =
    try (fails deletes_history)
      (done (record s { history = keep (λ h. not (of_relay id h)) s.history }))

unfoldable pub update_bot_relay : Fails → Tables → BotRelay → Bool → Tables × Option String
unfolding try transaction update_rows is_taken has_id clear_history count
update_bot_relay fails s relay reset_cursor =
    let updated : Tables = record s { relays = update_rows relay reset_cursor s.relays } in
    transaction s (
      try (fails updates_relay) (
        if not (count (has_id relay.id) s.relays == 0) && not (count (is_taken relay) s.relays == 0)
        then aborted "UNIQUE constraint failed"
        else if reset_cursor
        then clear_history fails relay.id updated
        else done updated))

-- The route of the relay is the one that the scan began with.
unfoldable pub same_route : BotRelay → BotRelay → Bool
same_route relay r =
    r.id == relay.id
    && r.user_id == relay.user_id
    && r.source_chat_id == relay.source_chat_id
    && r.target_bot_id == relay.target_bot_id

unfoldable pub set_cursor : BotRelay → ℕ → List BotRelay → List BotRelay
unfolding same_route
set_cursor relay message_id [] = []
set_cursor relay message_id (r ∷ rs) =
    (if same_route relay r then record r { last_message_id = some message_id } else r)
    ∷ set_cursor relay message_id rs

unfoldable pub update_bot_relay_last_message_id :
    Fails → Tables → BotRelay → ℕ → Tables × Option String
unfolding try transaction set_cursor same_route count
update_bot_relay_last_message_id fails s relay message_id = transaction s (
    try (fails updates_cursor) (
      if count (same_route relay) s.relays == 0
      then aborted "bot relay route changed while scanning"
      else done (record s { relays = set_cursor relay message_id s.relays })))

-- An insert that on a conflict writes the outcome and the time of the row that is there.
unfoldable pub upsert_history : BotRelayHistory → List BotRelayHistory → List BotRelayHistory
upsert_history row [] = row ∷ []
upsert_history row (h ∷ hs) =
    let rest = upsert_history row hs in
    if h.bot_relay_id == row.bot_relay_id && h.message_id == row.message_id
    then record h { success = row.success; error = row.error; updated_at = row.updated_at } ∷ hs
    else h ∷ rest

-- `updated_at DESC, id DESC`
unfoldable pub is_newer : BotRelayHistory → BotRelayHistory → Bool
is_newer a b = ltb b.updated_at a.updated_at || b.updated_at == a.updated_at && ltb b.id a.id

unfoldable pub insert_history : BotRelayHistory → List BotRelayHistory → List BotRelayHistory
unfolding is_newer
insert_history h [] = h ∷ []
insert_history h (x ∷ xs) =
    let rest = insert_history h xs in if is_newer h x then h ∷ x ∷ xs else x ∷ rest

unfoldable pub newest_first : List BotRelayHistory → List BotRelayHistory
unfolding insert_history
newest_first [] = []
newest_first (h ∷ hs) = insert_history h (newest_first hs)

abbrev pub row_id : BotRelayHistory → ℕ
row_id h = h.id

unfoldable pub stale_ids : ℕ → List BotRelayHistory → List ℕ
unfolding newest_first of_relay
stale_ids id hs = map row_id (drop bot_relay_history_limit (newest_first (keep (of_relay id) hs)))

unfoldable pub contains_id : List ℕ → ℕ → Bool
contains_id [] n = false
contains_id (i ∷ is) n = let rest = contains_id is n in if i == n then true else rest

unfoldable pub delete_stale : Fails → List ℕ → Tables → TxResult
unfolding try contains_id
delete_stale fails [] s = done s
delete_stale fails (i ∷ is) s =
    try (fails deletes_stale)
      (done (record s { history = keep (λ h. not (contains_id (i ∷ is) h.id)) s.history }))

unfoldable pub history_of : Option String → BotRelay → ℕ → ℕ → ℕ → BotRelayHistory
history_of none relay message_id id now = record {
  id = id;
  bot_relay_id = relay.id;
  message_id = message_id;
  success = true;
  error = "";
  updated_at = now;
}
history_of (some e) relay message_id id now = record {
  id = id;
  bot_relay_id = relay.id;
  message_id = message_id;
  success = false;
  error = e;
  updated_at = now;
}

unfoldable pub save_history : Tables → BotRelay → ℕ → Option String → ℕ → Tables
unfolding upsert_history history_of
save_history s relay message_id process_err now = record s {
  history =
      upsert_history (history_of process_err relay message_id s.next_history_id now) s.history;
  next_history_id = suc s.next_history_id;
}

unfoldable pub record_bot_relay_history :
    Fails → Tables → BotRelay → ℕ → Option String → ℕ → Tables × Option String
unfolding try transaction count same_route save_history stale_ids delete_stale
record_bot_relay_history fails s relay message_id process_err now =
    let saved : Tables = save_history s relay message_id process_err now in
    transaction s (
      try (fails counts_routes) (
        if count (same_route relay) s.relays == 0
        then aborted "bot relay route changed while scanning"
        else try (fails saves_history) (
            try (fails plucks_stale)
              (delete_stale fails (stale_ids relay.id saved.history) saved))))

unfoldable pub delete_bot_relay : Fails → Tables → ℕ → Tables × Option String
unfolding try transaction of_relay has_id
delete_bot_relay fails s id = transaction s (
    try (fails deletes_history) (
      try (fails deletes_relay) (
        done (record s {
          relays = keep (λ r. not (has_id id r)) s.relays;
          history = keep (λ h. not (of_relay id h)) s.history;
        }))))
