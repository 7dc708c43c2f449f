-- ===== src/Relay/Dialogue.antt =====
-- `botRelayManager.handleUpdate`, `process` and `addTasks` of client/bot/handlers/bot_relay.go. The loop reads
-- a sequence of events, in the order in which its `select` takes them; the channel of a timer that was
-- not started gives none.
pub mod Answers
pub mod Settles
use save_any_bot.Prelude.{
  ℕ, zero, suc, Bool, true, false, not, ◌||◌, ◌&&◌, String, Option, none, some, List, [], ◌∷◌, ◌++◌,
  ltb, leb, ◌==◌, str_eq, length, if◌then◌else◌,
}

-- The media of a message: its file, if the library can make one of it.
pub data Media {ℓ} (F : Type ℓ) : Type ℓ where
  document photo : Option F → Media F
  other_media : Media F

pub record Response {ℓ} (F : Type ℓ) : Type ℓ where
  pub id : ℕ
  pub reply_to : Option ℕ
  pub media : Option (Media F)
  pub says_pending : Bool

pub data Sender : Type 0 where
  no_sender other_sender : Sender
  user_sender : ℕ → Sender

pub record Update {ℓ} (F : Type ℓ) : Type ℓ where
  pub message : Option (Response F)
  pub is_out : Bool
  pub is_edit : Bool
  pub from_user_chat : Bool
  pub chat_id : ℕ
  pub sender : Sender

unfoldable pub sent_by : ℕ → Sender → Bool
sent_by chat_id no_sender = true
sent_by chat_id other_sender = false
sent_by chat_id (user_sender id) = id == chat_id

module _ {ℓ} {F : Type ℓ} where
  -- The response that an update puts on the channel, while `active_target` is the bot that is asked.
  unfoldable pub handle_update : ℕ → Update F → Option (Response F)
  unfolding sent_by
  handle_update active_target u =
      if u.is_out || u.is_edit || not u.from_user_chat || not (active_target == u.chat_id)
      then none
      else if sent_by u.chat_id u.sender
      then u.message
      else none

  unfoldable pub relay_response_matches : Response F → ℕ → Bool
  relay_response_matches m start =
      if leb m.id start
      then false
      else elim m.reply_to [ none ↦ true | some r ↦ if ltb 0 r then leb start r else true ]

  unfoldable pub relay_file : Media F → Option F
  relay_file (document f) = f
  relay_file (photo f) = f
  relay_file other_media = none

pub data Event {ℓ} (F : Type ℓ) : Type ℓ where
  arrives : Update F → Event F
  quiet_fires timeout_fires ctx_done : Event F

pub data Status : Type 0 where
  pending : Status
  received : ℕ → Status

pub record Waiting {ℓ} (F : Type ℓ) : Type ℓ where
  pub files : List F
  pub quiet_started : Bool
  pub edits : List Status

pub data Outcome {ℓ} (F : Type ℓ) : Type ℓ where
  adds_tasks : List F → Outcome F
  timed_out cancelled : Outcome F
  still_waits : Waiting F → Outcome F

module _ {ℓ} {F : Type ℓ} where
  unfoldable pub add_file : Waiting F → Option F → Waiting F
  add_file w none = w
  add_file w (some f) = record {
    files = w.files ++ f ∷ [];
    quiet_started = true;
    edits = w.edits ++ received (length (w.files ++ f ∷ [])) ∷ [];
  }

  unfoldable pub take_media : Waiting F → Bool → Option (Media F) → Waiting F
  unfolding add_file relay_file
  take_media w says_pending none =
      if says_pending then record w { edits = w.edits ++ pending ∷ [] } else w
  take_media w says_pending (some media) = add_file w (relay_file media)

  unfoldable pub take_response : ℕ → Waiting F → Option (Response F) → Waiting F
  unfolding take_media relay_response_matches
  take_response start w none = w
  take_response start w (some m) =
      if relay_response_matches m start then take_media w m.says_pending m.media else w

  unfoldable pub settle : List F → Outcome F
  settle [] = timed_out
  settle (f ∷ fs) = adds_tasks (f ∷ fs)

  -- The loop of `process`, after the start command was sent as the message `start`.
  unfoldable pub await : ℕ → ℕ → Waiting F → List (Event F) → Outcome F
  unfolding handle_update take_response settle
  await target start w [] = still_waits w
  await target start w (arrives u ∷ es) =
      await target start (take_response start w (handle_update target u)) es
  await target start w (quiet_fires ∷ es) =
      let rest = await target start w es in if w.quiet_started then adds_tasks w.files else rest
  await target start w (timeout_fires ∷ es) = settle w.files
  await target start w (ctx_done ∷ es) = cancelled

  unfoldable pub process : ℕ → ℕ → List (Event F) → Outcome F
  unfolding await
  process target start es =
      await target start (record { files = []; quiet_started = false; edits = [] }) es

-- What `addTasks` hands over, or why it does not.
pub data Handover {ℓ} (F : Type ℓ) : Type ℓ where
  single : String → F → Handover F
  batch : String → List F → Handover F
  no_owner no_default_storage no_storage no_directory : Handover F

pub record Owner : Type 0 where
  pub default_storage : String
  pub default_dir : ℕ

unfoldable pub hand_over {ℓ} : {F : Type ℓ} → String → List F → Handover F
hand_over dir (f ∷ []) = single dir f
hand_over dir [] = batch dir []
hand_over dir (f ∷ g ∷ fs) = batch dir (f ∷ g ∷ fs)

-- The tables of the users and directories, and the storages of the user, are looked up.
unfoldable pub add_tasks {ℓ} :
    {F : Type ℓ} → Option Owner → (String → Bool) → (ℕ → Option String) → List F → Handover F
unfolding hand_over
add_tasks none has_storage dir files = no_owner
add_tasks (some u) has_storage dir files =
    if str_eq u.default_storage ""
    then no_default_storage
    else if has_storage u.default_storage
    then (if u.default_dir == 0
        then hand_over "" files
        else elim (dir u.default_dir) [ none ↦ no_directory | some path ↦ hand_over path files ])
    else no_storage
