-- ===== src/Relay/Api/Update.antt =====
-- What a PUT request of api/bot_relay.go does to the cursor and to the history of a relay.
use save_any_bot.Prelude.{
  ◌≢◌, Bool-cases, Checked, ok, refused, ℕ, ◌≡◌, refl, ap, ◌∙◌, Bool, true, false, not, ◌&&◌,
  String, Option, none, some, List, [], ◌∷◌, ◌==◌, keep, arith, inl, inr, ◌⊎◌, if◌then◌else◌,
}
use save_any_bot.Relay.Store.{
  BotRelay, BotRelayHistory, Tables, Fails, count, has_id, is_taken, of_relay, update_rows,
  updated_fields, transaction, try, done, aborted, updates_relay, deletes_history, clear_history,
  update_bot_relay,
}
use save_any_bot.Relay.Api.{
  BotRelayRequest, Lookup, resolve_bot_relay, with_defaults, find_relay, route_changed, merged,
  Reply, failure, relay_updated, bot_relay_to_response, after_update, put_relay,
}

find_relay-update_rows :
    (m relay : BotRelay) (b : Bool) (rs : List BotRelay)
    → find_relay m.id rs ≡ some relay
    → find_relay m.id (update_rows m b rs) ≡ some (updated_fields m b relay)
unfolding find_relay update_rows updated_fields
find_relay-update_rows m relay b [] h = ground (arith, h)
find_relay-update_rows m relay b (r ∷ rs) h = ground (arith, h, find_relay-update_rows m relay b rs)

merged_fields :
    (relay updated : BotRelay)
    → updated_fields (merged relay updated) (route_changed relay updated) relay
      ≡ merged relay updated
unfolding updated_fields merged
merged_fields relay updated = go (route_changed relay updated)
  where
    go :
        (b : Bool)
        → Path BotRelay
            (record updated {
              id = relay.id;
              last_message_id =
                  if b then (if b then none else relay.last_message_id) else relay.last_message_id;
            })
            (record updated {
              id = relay.id;
              last_message_id = if b then none else relay.last_message_id;
            })
    go true = refl
    go false = refl

none_left :
    (id : ℕ) (hs : List BotRelayHistory)
    → count (of_relay id) (keep (λ h. not (of_relay id h)) hs) ≡ 0
unfolding count of_relay
none_left id [] = refl
none_left id (h ∷ hs) = ground (arith, none_left id hs)

-- Another source or another bot.
abbrev pub Moved : BotRelay → BotRelay → Type 0
Moved relay u = (relay.source_chat_id ≢ u.source_chat_id) ⊎ (relay.target_bot_id ≢ u.target_bot_id)

abbrev pub Stays : BotRelay → BotRelay → Type 0
Stays relay u = (relay.source_chat_id ≡ u.source_chat_id) × (relay.target_bot_id ≡ u.target_bot_id)

-- Why a request is refused: it does not resolve, a statement fails, or another relay has its route.
pub data Refused (fails : Fails) (s : Tables) (relay : BotRelay) (c : Checked BotRelay)
    : Type 0 where
  invalid : (e : String) → c ≡ refused e → Refused fails s relay c
  broken :
      (e : String)
      → (fails updates_relay ≡ some e) ⊎ (fails deletes_history ≡ some e)
      → Refused fails s relay c
  clash :
      (u row : BotRelay)
      → c ≡ ok u
      → row.id ≡ relay.id
      → row.source_chat_id ≡ u.source_chat_id
      → row.target_bot_id ≡ u.target_bot_id
      → count (is_taken row) s.relays ≢ 0
      → Refused fails s relay c

-- How a PUT request ends.
pub data Ends (fails : Fails) (s : Tables) (relay : BotRelay) (c : Checked BotRelay)
    : Tables × Reply → Type 0 where
  unchanged :
      (status : ℕ) (e : String)
      → Refused fails s relay c
      → Ends fails s relay c (s, failure status e)
  same_route :
      (t : Tables) (u row : BotRelay)
      → c ≡ ok u
      → Stays relay u
      → row ≡ record u { id = relay.id; last_message_id = relay.last_message_id }
      → find_relay relay.id t.relays ≡ some row
      → t.history ≡ s.history
      → Ends fails s relay c (t, relay_updated (bot_relay_to_response row []))
  new_route :
      (t : Tables) (u row : BotRelay)
      → c ≡ ok u
      → Moved relay u
      → row ≡ record u { id = relay.id; last_message_id = none }
      → find_relay relay.id t.relays ≡ some row
      → count (of_relay relay.id) t.history ≡ 0
      → Ends fails s relay c (t, relay_updated (bot_relay_to_response row []))

route_changed-Moved :
    (relay u : BotRelay)
    → ((route_changed relay u ≡ true) × Moved relay u)
      ⊎ ((route_changed relay u ≡ false) × Stays relay u)
unfolding route_changed
route_changed-Moved relay u = elim (Bool-cases (relay.source_chat_id == u.source_chat_id)) [
  | inr e ↦ inl (rw e refl, inl (λ k. ground (arith, e, k)))
  | inl e ↦ elim (Bool-cases (relay.target_bot_id == u.target_bot_id)) [
    | inr f ↦ inl (rw (e, f) refl, inr (λ k. ground (arith, f, k)))
    | inl f ↦ inr (rw (e, f) refl, (ground (arith, e), ground (arith, f)))
  ]
]

-- A PUT request for a relay of the table is refused, and then changes nothing, only if it does not resolve, a
-- statement fails or another relay has its route. Otherwise it resolves, and the row has the fields of that relay: with the cursor and the history that it had if
-- neither the source nor the bot is another, and with no cursor and no history if one of them is. The
-- reply shows the row.
pub put_relay-Ends :
    (fails : Fails) (l : Lookup) (s : Tables) (relay : BotRelay) (req : BotRelayRequest)
    → find_relay relay.id s.relays ≡ some relay
    → Ends fails s relay (resolve_bot_relay l (with_defaults req)) (put_relay fails l s relay req)
unfolding put_relay update_bot_relay clear_history transaction try after_update
put_relay-Ends fails l s relay req h = go (resolve_bot_relay l (with_defaults req))
  where
    row :
        (u : BotRelay)
        → find_relay relay.id (update_rows (merged relay u) (route_changed relay u) s.relays)
          ≡ some (merged relay u)
    row u =
        find_relay-update_rows (merged relay u) relay (route_changed relay u) s.relays h
        ∙ ap some (merged_fields relay u)

    done_with :
        (u : BotRelay) (f : Option String) (taken b : Bool) (g : Option String)
        → fails updates_relay ≡ f
        → (not (count (has_id relay.id) s.relays == 0)
            && not (count (is_taken (merged relay u)) s.relays == 0))
          ≡ taken
        → fails deletes_history ≡ g
        → route_changed relay u ≡ b
        → let m = merged relay u in
          let rows = update_rows m (route_changed relay u) s.relays in
          Ends fails s relay (ok u) (
            after_update m (
              transaction s (
                try f (
                  if taken
                  then aborted "UNIQUE constraint failed"
                  else if b
                  then try g (
                      done (record s {
                        relays = rows;
                        history = keep (λ h. not (of_relay relay.id h)) s.history;
                      }))
                  else done (record s { relays = rows })))))
    done_with u (some e) taken b g x y z q = unchanged 400 "relay_save_failed" (broken e (inl x))
    done_with u none true b g x y z q = unchanged 400 "relay_save_failed" (
        clash u (merged relay u) refl (unfold merged in refl) (unfold merged in refl)
          (unfold merged in refl) (λ k. ground (arith, y, k)))
    done_with u none false false g x y z q = elim (route_changed-Moved relay u) [
      | inl (r, m) ↦ absurd (cc (q, r))
      | inr (r, m) ↦
          same_route _ u (merged relay u) refl m (unfold merged in rw q refl) (row u) refl
    ]
    done_with u none false true (some e) x y z q =
        unchanged 400 "relay_save_failed" (broken e (inr z))
    done_with u none false true none x y z q = elim (route_changed-Moved relay u) [
      | inl (r, m) ↦
          new_route _ u (merged relay u) refl m (unfold merged in rw q refl) (row u)
            (none_left relay.id s.history)
      | inr (r, m) ↦ absurd (cc (q, r))
    ]

    go :
        (c : Checked BotRelay)
        → Ends fails s relay c (elim c as (λ x. Tables × Reply) [
          | refused e ↦ (s, failure 400 "invalid_relay")
          | ok u ↦
              after_update
                (merged relay u)
                (update_bot_relay fails s (merged relay u) (route_changed relay u))
        ])
    go (refused e) = unchanged 400 "invalid_relay" (invalid e refl)
    go (ok u) =
        done_with u (fails updates_relay)
          (not (count (has_id relay.id) s.relays == 0)
            && not (count (is_taken (merged relay u)) s.relays == 0))
          (route_changed relay u) (fails deletes_history) refl refl refl refl
