-- ===== src/Relay/Store/Integrity/Removal.antt =====
-- The operations of database/bot_relay.go that remove rows keep the tables sound.
use save_any_bot.Prelude.{
  All-keep, ℕ, ◌≤◌, ◌<◌, ◌≡◌, ◌≢◌, refl, sym, subst, Bool, true, false, not, ◌&&◌, String, Option,
  none, some, List, [], ◌∷◌, ◌==◌, keep, All, if◌then◌else◌, arith, Bool-cases, inl, inr,
}
use save_any_bot.Relay.Store.{
  BotRelay, BotRelayHistory, Tables, Fails, done, transaction, try, count, has_id, same_route,
  of_relay, upsert_history, history_of, save_history, record_bot_relay_history, delete_bot_relay,
  deletes_history, deletes_relay, stale_ids,
}
use save_any_bot.Relay.Store.History.{
  IsBounded, count-le, record_bot_relay_history-cases, record_bot_relay_history-IsBounded, stays,
}
use save_any_bot.Relay.Store.Integrity.Rows.{UniqueRoutes-keep, UniqueIds-keep}
use save_any_bot.Relay.Store.Integrity.Updates.{}
use save_any_bot.Relay.Store.Integrity.Sound.{IsOwned, IsSound}

count-has_id_other :
    (id i : ℕ) (rs : List BotRelay)
    → i ≢ id
    → count (has_id i) (keep (λ r. not (has_id id r)) rs) ≡ count (has_id i) rs
unfolding count has_id
count-has_id_other id i [] n = refl
count-has_id_other id i (r ∷ rs) n = ground (arith, count-has_id_other id i rs n)

IsOwned-keep :
    (id : ℕ) (rs : List BotRelay) (hs : List BotRelayHistory)
    → All (IsOwned rs) hs
    → All (IsOwned (keep (λ r. not (has_id id r)) rs)) (keep (λ h. not (of_relay id h)) hs)
unfolding of_relay
IsOwned-keep id rs [] o = tt
IsOwned-keep id rs (h ∷ hs) o = elim (Bool-cases (h.bot_relay_id == id)) [
  | inl e ↦ rw e (IsOwned-keep id rs hs o.1)
  | inr e ↦
      let other : h.bot_relay_id ≢ id = ground (arith, e) in
      rw e (
        omega (arith, count-has_id_other id h.bot_relay_id rs other, o.0),
        IsOwned-keep id rs hs o.1,
      )
]

pub delete_bot_relay-IsSound :
    (fails : Fails) (s : Tables) (id : ℕ) → IsSound s → IsSound (delete_bot_relay fails s id).0
unfolding delete_bot_relay transaction try
delete_bot_relay-IsSound fails s id g = either (fails deletes_history) (fails deletes_relay)
  where
    rows : List BotRelay
    rows = keep (λ r. not (has_id id r)) s.relays

    hs : List BotRelayHistory
    hs = keep (λ h. not (of_relay id h)) s.history

    gone : IsSound (record s { relays = rows; history = hs })
    gone = record {
      routes = UniqueRoutes-keep (λ r. not (has_id id r)) s.relays g.routes;
      ids = UniqueIds-keep (λ r. not (has_id id r)) s.relays g.ids;
      given = All-keep (λ r. r.id < s.next_relay_id) (λ r. not (has_id id r)) s.relays g.given;
      owned = IsOwned-keep id s.relays s.history g.owned;
      bounded = λ i.
          omega (arith, count-le (of_relay i) (λ h. not (of_relay id h)) s.history, g.bounded i);
    }

    either :
        (f1 f2 : Option String)
        → IsSound
            (transaction s (try f1 (try f2 (done (record s { relays = rows; history = hs }))))).0
    either (some e) f2 = g
    either none (some e) = g
    either none none = gone

count-same_route :
    (relay : BotRelay) (rs : List BotRelay)
    → count (same_route relay) rs ≤ count (has_id relay.id) rs
unfolding count same_route has_id
count-same_route relay [] = omega arith
count-same_route relay (r ∷ rs) = ground (arith, count-same_route relay rs)

upsert_history-IsOwned :
    (rs : List BotRelay) (row : BotRelayHistory) (hs : List BotRelayHistory)
    → IsOwned rs row
    → All (IsOwned rs) hs
    → All (IsOwned rs) (upsert_history row hs)
unfolding upsert_history
upsert_history-IsOwned rs row [] p o = (p, tt)
upsert_history-IsOwned rs row (h ∷ hs) p o =
    either (h.bot_relay_id == row.bot_relay_id && h.message_id == row.message_id)
      (upsert_history-IsOwned rs row hs p o.1)
  where
    either :
        (b : Bool)
        → All (IsOwned rs) (upsert_history row hs)
        → All (IsOwned rs) (
            if b
            then record h { success = row.success; error = row.error; updated_at = row.updated_at }
              ∷ hs
            else h ∷ upsert_history row hs)
    either true t = o
    either false t = (o.0, t)

save_history-IsOwned :
    (s : Tables) (relay : BotRelay) (m : ℕ) (err : Option String) (now : ℕ)
    → 0 < count (has_id relay.id) s.relays
    → All (IsOwned s.relays) s.history
    → All (IsOwned s.relays) (save_history s relay m err now).history
unfolding save_history history_of
save_history-IsOwned s relay m none now p o = upsert_history-IsOwned s.relays _ s.history p o
save_history-IsOwned s relay m (some e) now p o = upsert_history-IsOwned s.relays _ s.history p o

pub record_bot_relay_history-IsSound :
    (fails : Fails) (s : Tables) (relay : BotRelay) (m : ℕ) (err : Option String) (now : ℕ)
    → IsSound s
    → IsSound (record_bot_relay_history fails s relay m err now).0
record_bot_relay_history-IsSound fails s relay m err now g =
    let saved : Tables = save_history s relay m err now in
    let bounded = record_bot_relay_history-IsBounded fails s relay m err now g.bounded in
    elim (record_bot_relay_history-cases fails s relay m err now) [
      | inl h ↦ subst IsSound (sym h.0) g
      | inr h ↦
          let cut = keep (stays (stale_ids relay.id saved.history)) saved.history in
          let present : 0 < count (has_id relay.id) s.relays =
            omega (arith, count-same_route relay s.relays, h.2) in
          let owned = save_history-IsOwned s relay m err now present g.owned in
          subst IsSound (sym h.0) (
            unfold save_history in
            record {
              routes = g.routes;
              ids = g.ids;
              given = g.given;
              owned =
                  All-keep (IsOwned s.relays) (stays (stale_ids relay.id saved.history))
                    saved.history owned;
              bounded = subst IsBounded h.0 bounded;
            })
    ]
