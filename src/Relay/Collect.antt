-- ===== src/Relay/Collect.antt =====
-- `collectRelayHistoryMessages` of client/bot/handlers/bot_relay.go. A page is what the server gives for
-- an offset at the time of the call; the calls are numbered, so that the history may change between
-- them. IDs below 1 are 0 here, and `content` is the message, if the item is one that has content.
pub mod Ends
pub mod Sorted
pub mod Complete
use save_any_bot.Prelude.{
  ℕ, zero, suc, ◌+◌, Bool, true, false, not, ◌||◌, ◌&&◌, String, Option, none, some, List, [], ◌∷◌,
  ◌++◌, ltb, leb, ◌==◌, if◌then◌else◌, length,
}

pub record RelayMessage {ℓ} (M : Type ℓ) : Type ℓ where
  pub id : ℕ
  pub content : Option M

pub data Page {ℓ} (M : Type ℓ) : Type ℓ where
  fetched : List (RelayMessage M) → Page M
  fetch_failed : String → Page M

pub data Collected {ℓ} (M : Type ℓ) : Type ℓ where
  collected : List (RelayMessage M) → Collected M
  failed : String → Collected M
  did_not_advance out_of_fuel : Collected M

abbrev pub relay_history_page_size : ℕ
relay_history_page_size = 10

-- The variables of the loops; `seen` is kept with the messages, whose IDs are its keys.
pub record PageScan {ℓ} (M : Type ℓ) : Type ℓ where
  pub oldest : ℕ
  pub reached : Bool
  pub messages : List (RelayMessage M)

-- The message ID is not above the cursor, if there is one.
unfoldable pub is_old : Option ℕ → ℕ → Bool
is_old none id = false
is_old (some last) id = leb id last

unfoldable pub is_first_scan : Option ℕ → Bool
is_first_scan none = true
is_first_scan (some last) = false

module _ {ℓ} {M : Type ℓ} where
  unfoldable pub is_seen : ℕ → List (RelayMessage M) → Bool
  is_seen id [] = false
  is_seen id (m ∷ ms) = let rest = is_seen id ms in if m.id == id then true else rest

  -- The body of the loop over a page.
  unfoldable pub scan_item : Option ℕ → PageScan M → RelayMessage M → PageScan M
  unfolding is_old is_seen
  scan_item last s m =
      let oldest : ℕ = if s.oldest == 0 || ltb m.id s.oldest then m.id else s.oldest in
      if m.id == 0
      then s
      else if is_old last m.id
      then record s { oldest = oldest; reached = true }
      else if is_seen m.id s.messages
      then record s { oldest = oldest }
      else record s { oldest = oldest; messages = s.messages ++ m ∷ [] }

  unfoldable pub scan_page : Option ℕ → PageScan M → List (RelayMessage M) → PageScan M
  scan_page last s [] = s
  scan_page last s (m ∷ ms) = scan_page last (scan_item last s m) ms

  -- `slices.SortFunc` by ID; the IDs differ.
  unfoldable pub insert_message : RelayMessage M → List (RelayMessage M) → List (RelayMessage M)
  insert_message m [] = m ∷ []
  insert_message m (x ∷ xs) =
      let rest = insert_message m xs in if leb m.id x.id then m ∷ x ∷ xs else x ∷ rest

  unfoldable pub sort_messages : List (RelayMessage M) → List (RelayMessage M)
  unfolding insert_message
  sort_messages [] = []
  sort_messages (m ∷ ms) = insert_message m (sort_messages ms)

  -- The end of a round: the loop ends, fails, or `next` goes on from the oldest ID of the page.
  unfoldable pub after_page :
      Option ℕ → ℕ → ℕ → PageScan M → (ℕ → PageScan M → Collected M) → Collected M
  unfolding is_first_scan sort_messages
  after_page last offset size s next =
      if is_first_scan last || s.reached || ltb size relay_history_page_size || s.oldest == 0
      then collected (sort_messages s.messages)
      else if not (offset == 0) && leb offset s.oldest
      then did_not_advance
      else next s.oldest (record s { oldest = 0; reached = false })

  unfoldable pub after_fetch :
      Option ℕ → ℕ → PageScan M → Page M → (ℕ → PageScan M → Collected M) → Collected M
  unfolding after_page scan_page sort_messages
  after_fetch last offset s (fetch_failed e) next = failed e
  after_fetch last offset s (fetched []) next = collected (sort_messages s.messages)
  after_fetch last offset s (fetched (m ∷ ms)) next =
      after_page last offset (length (m ∷ ms)) (scan_page last s (m ∷ ms)) next

  -- The loop after its first round, with the number of the call.
  unfoldable pub collect_from : (ℕ → ℕ → Page M) → Option ℕ → ℕ → ℕ → ℕ → PageScan M → Collected M
  unfolding after_fetch
  collect_from fetch last zero k offset s = out_of_fuel
  collect_from fetch last (suc fuel) k offset s =
      after_fetch last offset s (fetch k offset) (collect_from fetch last fuel (suc k))

  -- Each further round begins below the one before it, so the first offset is fuel enough.
  unfoldable pub collect : (ℕ → ℕ → Page M) → Option ℕ → Collected M
  unfolding after_fetch collect_from
  collect fetch last =
      after_fetch last 0 (record { oldest = 0; reached = false; messages = [] }) (fetch 0 0)
        λ offset s. collect_from fetch last (suc offset) 1 offset s
