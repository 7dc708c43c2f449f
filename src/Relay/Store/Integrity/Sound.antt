-- ===== src/Relay/Store/Integrity/Sound.antt =====
-- Sound tables of database/bot_relay.go, and the operations that write the relays.
use save_any_bot.Prelude.{
  All-keep, ℕ, suc, ◌<◌, ◌≡◌, refl, sym, subst, Bool, true, false, not, ◌&&◌, String, Option, none,
  some, List, [], ◌∷◌, ◌++◌, ◌==◌, keep, All, All-append, All-map, if◌then◌else◌, arith, inl, inr,
  ◌⊎◌,
}
use save_any_bot.Relay.Store.{
  BotRelay, BotRelayHistory, Tables, Fails, done, aborted, transaction, try, count, on_route,
  has_id, same_route, is_taken, of_relay, update_rows, set_cursor, clear_history, create_bot_relay,
  update_bot_relay, update_bot_relay_last_message_id, creates_relay, updates_relay, deletes_history,
  updates_cursor,
}
use save_any_bot.Relay.Store.History.{IsBounded, count-le, count-append}
use save_any_bot.Relay.Store.Integrity.Rows.{
  UniqueRoutes, UniqueIds, UniqueRoutes-append, UniqueIds-append, count-set_cursor_id,
  set_cursor-UniqueRoutes, set_cursor-UniqueIds, set_cursor-below,
}
use save_any_bot.Relay.Store.Integrity.Updates.{
  count-update_rows_id, update_rows-UniqueIds, update_rows-below, update_rows-absent,
  update_rows-UniqueRoutes,
}

-- The relay of the row is in the table.
abbrev pub IsOwned : List BotRelay → BotRelayHistory → Type 0
IsOwned rs h = 0 < count (has_id h.bot_relay_id) rs

pub record IsSound (s : Tables) : Type 0 where
  pub routes : UniqueRoutes s.relays
  pub ids : UniqueIds s.relays
  pub given : All (λ r. r.id < s.next_relay_id) s.relays
  pub owned : All (IsOwned s.relays) s.history
  pub bounded : IsBounded s

pub create_bot_relay-IsSound :
    (fails : Fails) (s : Tables) (relay : BotRelay)
    → IsSound s
    → IsSound (create_bot_relay fails s relay).0
unfolding create_bot_relay transaction try
create_bot_relay-IsSound fails s relay g = either (fails creates_relay) (taken == 0) refl
  where
    taken : ℕ
    taken = count (on_route relay.source_chat_id relay.target_bot_id) s.relays

    row : BotRelay
    row = record relay { id = s.next_relay_id }

    grown : (h : BotRelayHistory) → IsOwned s.relays h → IsOwned (s.relays ++ row ∷ []) h
    grown h o = omega (arith, count-append (has_id h.bot_relay_id) s.relays (row ∷ []), o)

    created :
        taken ≡ 0
        → IsSound (record s { relays = s.relays ++ row ∷ []; next_relay_id = suc s.next_relay_id })
    created n = record {
      routes = UniqueRoutes-append s.relays row g.routes n;
      ids = UniqueIds-append s.relays row g.ids g.given;
      given =
          All-append (λ r. r.id < suc s.next_relay_id) s.relays (row ∷ [])
            (All-map (λ r. r.id < s.next_relay_id) (λ r. r.id < suc s.next_relay_id) s.relays
              (λ r p. omega arith) g.given)
            (omega arith, tt);
      owned = All-map (IsOwned s.relays) (IsOwned (s.relays ++ row ∷ [])) s.history grown g.owned;
      bounded = g.bounded;
    }

    either :
        (fail : Option String) (b : Bool)
        → (taken == 0) ≡ b
        → IsSound
            (transaction s (
              try fail (
                if b
                then done (record s {
                  relays = s.relays ++ row ∷ [];
                  next_relay_id = suc s.next_relay_id;
                })
                else aborted "UNIQUE constraint failed"))).0
    either (some e) b q = g
    either none true q = created (ground (arith, q))
    either none false q = g

pub update_bot_relay_last_message_id-IsSound :
    (fails : Fails) (s : Tables) (relay : BotRelay) (m : ℕ)
    → IsSound s
    → IsSound (update_bot_relay_last_message_id fails s relay m).0
unfolding update_bot_relay_last_message_id transaction try
update_bot_relay_last_message_id-IsSound fails s relay m g =
    either (fails updates_cursor) (count (same_route relay) s.relays == 0)
  where
    kept : (h : BotRelayHistory) → IsOwned s.relays h → IsOwned (set_cursor relay m s.relays) h
    kept h o = omega (arith, count-set_cursor_id relay m h.bot_relay_id s.relays, o)

    moved : IsSound (record s { relays = set_cursor relay m s.relays })
    moved = record {
      routes = set_cursor-UniqueRoutes relay m s.relays g.routes;
      ids = set_cursor-UniqueIds relay m s.relays g.ids;
      given = set_cursor-below s.next_relay_id relay m s.relays g.given;
      owned =
          All-map (IsOwned s.relays) (IsOwned (set_cursor relay m s.relays)) s.history kept g.owned;
      bounded = g.bounded;
    }

    either :
        (fail : Option String) (b : Bool)
        → IsSound
            (transaction s (
              try fail (
                if b
                then aborted "bot relay route changed while scanning"
                else done (record s { relays = set_cursor relay m s.relays })))).0
    either (some e) b = g
    either none true = g
    either none false = moved

-- Rows of the history that are removed for a relay leave the others with their owners.
keep-IsSound :
    (p : BotRelayHistory → Bool) (s : Tables)
    → IsSound s
    → IsSound (record s { history = keep p s.history })
keep-IsSound p s g = record {
  routes = g.routes;
  ids = g.ids;
  given = g.given;
  owned = All-keep (IsOwned s.relays) p s.history g.owned;
  bounded = λ id. omega (arith, count-le (of_relay id) p s.history, g.bounded id);
}

pub update_bot_relay-IsSound :
    (fails : Fails) (s : Tables) (relay : BotRelay) (reset_cursor : Bool)
    → IsSound s
    → IsSound (update_bot_relay fails s relay reset_cursor).0
unfolding update_bot_relay clear_history transaction try
update_bot_relay-IsSound fails s relay reset_cursor g =
    either (fails updates_relay) (not (present == 0) && not (taken == 0)) refl reset_cursor
      (fails deletes_history)
  where
    present : ℕ
    present = count (has_id relay.id) s.relays

    taken : ℕ
    taken = count (is_taken relay) s.relays

    rows : List BotRelay
    rows = update_rows relay reset_cursor s.relays

    kept : (h : BotRelayHistory) → IsOwned s.relays h → IsOwned rows h
    kept h o = omega (arith, count-update_rows_id relay reset_cursor h.bot_relay_id s.relays, o)

    unique : (present == 0) ≡ true ⊎ (taken == 0) ≡ true → UniqueRoutes rows
    unique (inl q) =
        subst UniqueRoutes
          (sym (update_rows-absent relay reset_cursor s.relays (ground (arith, q)))) g.routes
    unique (inr q) =
        update_rows-UniqueRoutes relay reset_cursor s.relays g.ids g.routes (ground (arith, q))

    updated :
        (not (present == 0) && not (taken == 0)) ≡ false → IsSound (record s { relays = rows })
    updated q = record {
      routes = unique (ground (arith, q));
      ids = update_rows-UniqueIds relay reset_cursor s.relays g.ids;
      given = update_rows-below s.next_relay_id relay reset_cursor s.relays g.given;
      owned = All-map (IsOwned s.relays) (IsOwned rows) s.history kept g.owned;
      bounded = g.bounded;
    }

    either :
        (fail : Option String) (b : Bool)
        → (not (present == 0) && not (taken == 0)) ≡ b
        → (c : Bool) (fail_delete : Option String)
        → IsSound
            (transaction s (
              try fail (
                if b
                then aborted "UNIQUE constraint failed"
                else if c
                then try fail_delete (
                    done (record s {
                      relays = rows;
                      history = keep (λ h. not (of_relay relay.id h)) s.history;
                    }))
                else done (record s { relays = rows })))).0
    either (some e) b q c f = g
    either none true q c f = g
    either none false q false f = updated q
    either none false q true (some e) = g
    either none false q true none =
        keep-IsSound (λ h. not (of_relay relay.id h)) (record s { relays = rows }) (updated q)
