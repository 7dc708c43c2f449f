-- ===== src/Relay/Api.antt =====
-- api/bot_relay.go: the requests that make, change and delete relays, over the tables of Relay.Store.
-- What Telegram and the other tables answer is looked up in `Lookup`.
pub mod Bounds
pub mod Handlers
pub mod Update
use save_any_bot.Prelude.{
  Checked, ok, refused, and_then, ℕ, zero, suc, Bool, true, false, not, ◌||◌, ◌&&◌, String, Option,
  none, some, List, [], ◌∷◌, ◌++◌, ltb, leb, ◌==◌, str_eq, keep, map, if◌then◌else◌,
}
use save_any_bot.Relay.Store.{
  BotRelay, BotRelayHistory, Tables, Fails, count, has_id, of_relay, newest_first, create_bot_relay,
  update_bot_relay, delete_bot_relay,
}

pub data ℤ : Type 0 where
  pos negsuc : ℕ → ℤ

pub record BotRelayRequest : Type 0 where
  pub user_id : ℕ
  pub source_chat : String
  pub target_bot : String
  pub enabled : Bool
  pub timeout_seconds : ℤ
  pub quiet_seconds : ℤ
  pub scan_interval_minutes : ℤ

abbrev pub default_relay_timeout_seconds : ℕ
default_relay_timeout_seconds = 900

abbrev pub default_relay_quiet_seconds : ℕ
default_relay_quiet_seconds = 5

abbrev pub default_relay_scan_interval_minutes : ℕ
default_relay_scan_interval_minutes = 5

abbrev pub max_relay_timeout_seconds : ℕ
max_relay_timeout_seconds = 86400

abbrev pub max_relay_quiet_seconds : ℕ
max_relay_quiet_seconds = 300

abbrev pub max_relay_scan_interval_minutes : ℕ
max_relay_scan_interval_minutes = 1440

unfoldable pub or_default : ℕ → ℤ → ℤ
or_default d (pos zero) = pos d
or_default d (pos (suc n)) = pos (suc n)
or_default d (negsuc n) = negsuc n

-- What follows the decoding of the body.
unfoldable pub with_defaults : BotRelayRequest → BotRelayRequest
unfolding or_default
with_defaults r = record r {
  timeout_seconds = or_default default_relay_timeout_seconds r.timeout_seconds;
  quiet_seconds = or_default default_relay_quiet_seconds r.quiet_seconds;
  scan_interval_minutes = or_default default_relay_scan_interval_minutes r.scan_interval_minutes;
}

-- The number of a field between 1 and its maximum.
unfoldable pub in_range : String → ℕ → ℤ → Checked ℕ
in_range e top (negsuc n) = refused e
in_range e top (pos n) = if ltb n 1 || ltb top n then refused e else ok n

pub record Peer : Type 0 where
  pub id : ℕ
  pub name : String

-- The source is looked up by `channel` under the text of the request, as an ID or a username.
pub record Lookup : Type 0 where
  pub owner : ℕ → Option String
  pub has_storage : ℕ → String → Bool
  pub userbot : Bool
  pub channel : String → Checked Peer
  pub bot : String → Checked Peer

unfoldable pub check_owner : Lookup → ℕ → Checked ℕ
check_owner l id = elim (l.owner id) [
  | none ↦ refused "owner must be an existing SaveAny user"
  | some storage ↦
      if l.has_storage id storage
      then ok id
      else refused "owner must have an available default storage"
]

unfoldable pub check_quiet : ℕ → ℕ → Checked ℕ
check_quiet quiet timeout =
    if ltb timeout quiet then refused "quiet_seconds cannot exceed timeout_seconds" else ok quiet

unfoldable pub check_userbot : Lookup → Checked Bool
check_userbot l =
    if l.userbot then ok true else refused "userbot must be enabled before configuring Bot Relay"

unfoldable pub resolved : BotRelayRequest → ℕ → ℕ → ℕ → ℕ → Peer → Peer → BotRelay
resolved req owner timeout quiet interval source target = record {
  id = 0;
  user_id = owner;
  source_chat_id = source.id;
  source_chat = source.name;
  target_bot_id = target.id;
  target_bot = target.name;
  enabled = req.enabled;
  timeout_seconds = timeout;
  quiet_seconds = quiet;
  scan_interval_minutes = interval;
  last_message_id = none;
}

unfoldable pub resolve_bot_relay : Lookup → BotRelayRequest → Checked BotRelay
unfolding and_then check_owner in_range check_quiet check_userbot resolved
resolve_bot_relay l req = and_then (check_owner l req.user_id) λ owner.
    and_then
      (in_range "timeout_seconds must be between 1 and 86400" max_relay_timeout_seconds
        req.timeout_seconds)
      λ timeout.
        and_then
          (in_range "quiet_seconds must be between 1 and 300" max_relay_quiet_seconds
            req.quiet_seconds)
          λ q. and_then (check_quiet q timeout) λ quiet.
            and_then
              (in_range "scan_interval_minutes must be between 1 and 1440"
                max_relay_scan_interval_minutes req.scan_interval_minutes)
              λ interval. and_then (check_userbot l) λ userbot.
                and_then (l.channel req.source_chat) λ source.
                  and_then (l.bot req.target_bot)
                    λ target. ok (resolved req owner timeout quiet interval source target)

pub record HistoryResponse : Type 0 where
  pub message_id : ℕ
  pub success : Bool
  pub error : String
  pub processed_at : ℕ

pub record BotRelayResponse : Type 0 where
  pub relay : BotRelay
  pub history : List HistoryResponse

unfoldable pub history_response : BotRelayHistory → HistoryResponse
history_response h = record {
  message_id = h.message_id;
  success = h.success;
  error = h.error;
  processed_at = h.updated_at;
}

-- The fields of the relay as they are, with the default for an interval of 0.
unfoldable pub bot_relay_to_response : BotRelay → List BotRelayHistory → BotRelayResponse
unfolding history_response
bot_relay_to_response r hs = record {
  relay = record r {
    scan_interval_minutes =
        if r.scan_interval_minutes == 0
        then default_relay_scan_interval_minutes
        else r.scan_interval_minutes;
  };
  history = map history_response hs;
}

pub data Reply : Type 0 where
  failure : ℕ → String → Reply
  relay_list : List BotRelayResponse → Reply
  relay_created relay_updated : BotRelayResponse → Reply
  relay_deleted method_not_allowed : Reply

pub data Method : Type 0 where
  get post put delete other_method : Method

unfoldable pub list_relays : Tables → List BotRelayResponse
unfolding bot_relay_to_response newest_first of_relay
list_relays s =
    map (λ r. bot_relay_to_response r (newest_first (keep (of_relay r.id) s.history))) s.relays

unfoldable pub after_create : BotRelay → Tables × Option String → Tables × Reply
unfolding bot_relay_to_response
after_create relay (s, none) = (s, relay_created (bot_relay_to_response relay []))
after_create relay (s, some e) = (s, failure 400 "relay_save_failed")

unfoldable pub create_relay : Fails → Lookup → Tables → BotRelayRequest → Tables × Reply
unfolding after_create create_bot_relay resolve_bot_relay with_defaults
create_relay fails l s req = elim (resolve_bot_relay l (with_defaults req)) [
  | refused e ↦ (s, failure 400 "invalid_relay")
  | ok relay ↦ after_create (record relay { id = s.next_relay_id }) (create_bot_relay fails s relay)
]

-- The body of the request is none if it was not decoded; `lists` is the error of listing.
unfoldable pub bot_relays_handler :
    Fails → Option String → Lookup → Method → Option BotRelayRequest → Tables → Tables × Reply
unfolding list_relays create_relay
bot_relays_handler fails none l get body s = (s, relay_list (list_relays s))
bot_relays_handler fails (some e) l get body s = (s, failure 500 "relay_list_failed")
bot_relays_handler fails lists l post none s = (s, failure 400 "invalid_request")
bot_relays_handler fails lists l post (some req) s = create_relay fails l s req
bot_relays_handler fails lists l put body s = (s, method_not_allowed)
bot_relays_handler fails lists l delete body s = (s, method_not_allowed)
bot_relays_handler fails lists l other_method body s = (s, method_not_allowed)

unfoldable pub find_relay : ℕ → List BotRelay → Option BotRelay
unfolding has_id
find_relay id [] = none
find_relay id (r ∷ rs) = let rest = find_relay id rs in if r.id == id then some r else rest

unfoldable pub route_changed : BotRelay → BotRelay → Bool
route_changed relay updated =
    not (relay.source_chat_id == updated.source_chat_id)
    || not (relay.target_bot_id == updated.target_bot_id)

-- The relay with the fields of the request; a changed route has no cursor.
unfoldable pub merged : BotRelay → BotRelay → BotRelay
unfolding route_changed
merged relay updated = record updated {
  id = relay.id;
  last_message_id = if route_changed relay updated then none else relay.last_message_id;
}

unfoldable pub after_update : BotRelay → Tables × Option String → Tables × Reply
unfolding bot_relay_to_response
after_update relay (s, none) = (s, relay_updated (bot_relay_to_response relay []))
after_update relay (s, some e) = (s, failure 400 "relay_save_failed")

unfoldable pub put_relay : Fails → Lookup → Tables → BotRelay → BotRelayRequest → Tables × Reply
unfolding after_update update_bot_relay merged route_changed resolve_bot_relay with_defaults
put_relay fails l s relay req = elim (resolve_bot_relay l (with_defaults req)) [
  | refused e ↦ (s, failure 400 "invalid_relay")
  | ok updated ↦
      after_update (merged relay updated)
        (update_bot_relay fails s (merged relay updated) (route_changed relay updated))
]

unfoldable pub after_delete : Tables × Option String → Tables × Reply
after_delete (s, none) = (s, relay_deleted)
after_delete (s, some e) = (s, failure 500 "relay_delete_failed")

unfoldable pub on_relay :
    Fails → Lookup → Method → Option BotRelayRequest → Tables → BotRelay → Tables × Reply
unfolding put_relay after_delete delete_bot_relay
on_relay fails l put none s relay = (s, failure 400 "invalid_request")
on_relay fails l put (some req) s relay = put_relay fails l s relay req
on_relay fails l delete body s relay = after_delete (delete_bot_relay fails s relay.id)
on_relay fails l get body s relay = (s, method_not_allowed)
on_relay fails l post body s relay = (s, method_not_allowed)
on_relay fails l other_method body s relay = (s, method_not_allowed)

-- `id` is none if the path has none; `loads` is an error of loading the relay.
unfoldable pub bot_relay_handler :
    Fails
    → Option String
    → Lookup
    → Method
    → Option ℕ
    → Option BotRelayRequest
    → Tables
    → Tables × Reply
unfolding find_relay on_relay
bot_relay_handler fails loads l method none body s = (s, failure 400 "invalid_request")
bot_relay_handler fails (some e) l method (some id) body s = (s, failure 500 "relay_load_failed")
bot_relay_handler fails none l method (some id) body s = elim (find_relay id s.relays) [
  | none ↦ (s, failure 404 "relay_not_found")
  | some relay ↦ on_relay fails l method body s relay
]
