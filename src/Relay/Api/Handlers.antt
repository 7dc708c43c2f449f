-- ===== src/Relay/Api/Handlers.antt =====
-- The requests of api/bot_relay.go keep the tables sound and the times of the relays valid.
use save_any_bot.Prelude.{
  Checked, ok, refused, All-keep, ℕ, suc, ◌≡◌, refl, sym, subst, Bool, true, false, not, ◌&&◌,
  String, Option, none, some, List, [], ◌∷◌, ◌++◌, ◌==◌, keep, All, All-append, if◌then◌else◌,
}
use save_any_bot.Relay.Store.{
  BotRelay, Tables, Fails, count, on_route, has_id, is_taken, of_relay, update_rows, updated_fields,
  transaction, try, done, aborted, creates_relay, updates_relay, deletes_history, clear_history,
  create_bot_relay, update_bot_relay, delete_bot_relay, deletes_relay,
}
use save_any_bot.Relay.Store.Integrity.Sound.{
  IsSound, create_bot_relay-IsSound, update_bot_relay-IsSound,
}
use save_any_bot.Relay.Store.Integrity.Removal.{delete_bot_relay-IsSound}
use save_any_bot.Relay.Api.{
  Reply, failure, BotRelayRequest, Lookup, resolve_bot_relay, with_defaults, after_create,
  create_relay, bot_relays_handler, Method, get, post, put, delete, other_method, find_relay,
  route_changed, merged, after_update, put_relay, after_delete, on_relay, bot_relay_handler,
}
use save_any_bot.Relay.Api.Bounds.{IsValid, Holds, resolve-Holds}

-- Sound tables whose relays have valid times.
abbrev pub Keeps : Tables → Type 0
Keeps s = IsSound s × All IsValid s.relays

create-Keeps :
    (fails : Fails) (s : Tables) (relay : BotRelay)
    → Keeps s
    → IsValid relay
    → Keeps (create_bot_relay fails s relay).0
unfolding create_bot_relay transaction try
create-Keeps fails s relay k v = (
  create_bot_relay-IsSound fails s relay k.0,
  either (fails creates_relay)
      (count (on_route relay.source_chat_id relay.target_bot_id) s.relays == 0),
)
  where
    rows : List BotRelay
    rows = s.relays ++ record relay { id = s.next_relay_id } ∷ []

    grown : All IsValid rows
    grown =
        All-append IsValid s.relays (record relay { id = s.next_relay_id } ∷ []) k.1
          (record { timeout = v.timeout; quiet = v.quiet; interval = v.interval }, tt)

    either :
        (f : Option String) (b : Bool)
        → All IsValid
            (transaction s (
              try f (
                if b
                then done (record s { relays = rows; next_relay_id = suc s.next_relay_id })
                else aborted "UNIQUE constraint failed"))).0.relays
    either (some e) b = k.1
    either none true = grown
    either none false = k.1

update_rows-IsValid :
    (relay : BotRelay) (b : Bool) (rs : List BotRelay)
    → IsValid relay
    → All IsValid rs
    → All IsValid (update_rows relay b rs)
unfolding update_rows updated_fields
update_rows-IsValid relay b [] v h = tt
update_rows-IsValid relay b (r ∷ rs) v h =
    (either (r.id == relay.id), update_rows-IsValid relay b rs v h.1)
  where
    either : (c : Bool) → IsValid (if c then updated_fields relay b r else r)
    either true = record { timeout = v.timeout; quiet = v.quiet; interval = v.interval }
    either false = h.0

update-Keeps :
    (fails : Fails) (s : Tables) (relay : BotRelay) (b : Bool)
    → Keeps s
    → IsValid relay
    → Keeps (update_bot_relay fails s relay b).0
unfolding update_bot_relay transaction try clear_history
update-Keeps fails s relay b k v = (
  update_bot_relay-IsSound fails s relay b k.0,
  either (fails updates_relay)
      (not (count (has_id relay.id) s.relays == 0) && not (count (is_taken relay) s.relays == 0)) b
      (fails deletes_history),
)
  where
    rows : List BotRelay
    rows = update_rows relay b s.relays

    valid : All IsValid rows
    valid = update_rows-IsValid relay b s.relays v k.1

    either :
        (f : Option String) (taken c : Bool) (g : Option String)
        → All IsValid
            (transaction s (
              try f (
                if taken
                then aborted "UNIQUE constraint failed"
                else if c
                then try g (
                    done (record s {
                      relays = rows;
                      history = keep (λ h. not (of_relay relay.id h)) s.history;
                    }))
                else done (record s { relays = rows })))).0.relays
    either (some e) taken c g = k.1
    either none true c g = k.1
    either none false false g = valid
    either none false true (some e) = k.1
    either none false true none = valid

delete-Keeps :
    (fails : Fails) (s : Tables) (id : ℕ) → Keeps s → Keeps (delete_bot_relay fails s id).0
unfolding delete_bot_relay transaction try
delete-Keeps fails s id k =
    (delete_bot_relay-IsSound fails s id k.0, either (fails deletes_history) (fails deletes_relay))
  where
    rows : List BotRelay
    rows = keep (λ r. not (has_id id r)) s.relays

    either :
        (f g : Option String)
        → All IsValid
            (transaction s (
              try f (
                try g (
                  done (record s {
                    relays = rows;
                    history = keep (λ h. not (of_relay id h)) s.history;
                  }))))).0.relays
    either (some e) g = k.1
    either none (some e) = k.1
    either none none = All-keep IsValid (λ r. not (has_id id r)) s.relays k.1

after_create-tables :
    (relay : BotRelay) (r : Tables × Option String) → (after_create relay r).0 ≡ r.0
unfolding after_create
after_create-tables relay (s, none) = refl
after_create-tables relay (s, some e) = refl

after_update-tables :
    (relay : BotRelay) (r : Tables × Option String) → (after_update relay r).0 ≡ r.0
unfolding after_update
after_update-tables relay (s, none) = refl
after_update-tables relay (s, some e) = refl

after_delete-tables : (r : Tables × Option String) → (after_delete r).0 ≡ r.0
unfolding after_delete
after_delete-tables (s, none) = refl
after_delete-tables (s, some e) = refl

create_relay-Keeps :
    (fails : Fails) (l : Lookup) (s : Tables) (req : BotRelayRequest)
    → Keeps s
    → Keeps (create_relay fails l s req).0
unfolding create_relay Holds
create_relay-Keeps fails l s req k =
    go (resolve_bot_relay l (with_defaults req)) (resolve-Holds l (with_defaults req))
  where
    go :
        (c : Checked BotRelay)
        → Holds IsValid c
        → Keeps
            (elim c as (λ x. Tables × Reply) [
              | refused e ↦ (s, failure 400 "invalid_relay")
              | ok relay ↦
                  after_create
                    (record relay { id = s.next_relay_id })
                    (create_bot_relay fails s relay)
            ]).0
    go (refused e) v = k
    go (ok relay) v =
        subst Keeps
          (sym (
            after_create-tables (record relay { id = s.next_relay_id })
              (create_bot_relay fails s relay)))
          (create-Keeps fails s relay k v)

put_relay-Keeps :
    (fails : Fails) (l : Lookup) (s : Tables) (relay : BotRelay) (req : BotRelayRequest)
    → Keeps s
    → Keeps (put_relay fails l s relay req).0
unfolding put_relay Holds merged
put_relay-Keeps fails l s relay req k =
    go (resolve_bot_relay l (with_defaults req)) (resolve-Holds l (with_defaults req))
  where
    go :
        (c : Checked BotRelay)
        → Holds IsValid c
        → Keeps
            (elim c as (λ x. Tables × Reply) [
              | refused e ↦ (s, failure 400 "invalid_relay")
              | ok updated ↦
                  after_update
                    (merged relay updated)
                    (update_bot_relay fails s (merged relay updated) (route_changed relay updated))
            ]).0
    go (refused e) v = k
    go (ok updated) v =
        subst Keeps
          (sym (
            after_update-tables (merged relay updated)
              (update_bot_relay fails s (merged relay updated) (route_changed relay updated))))
          (update-Keeps fails s (merged relay updated) (route_changed relay updated) k
            (record { timeout = v.timeout; quiet = v.quiet; interval = v.interval }))

-- A request to the list of relays, or to one relay.
pub data Request : Type 0 where
  to_list : Option String → Method → Option BotRelayRequest → Request
  to_relay : Option String → Method → Option ℕ → Option BotRelayRequest → Request

unfoldable pub serve_request : Fails → Lookup → Request → Tables → Tables × Reply
unfolding bot_relays_handler bot_relay_handler
serve_request fails l (to_list lists method body) s = bot_relays_handler fails lists l method body s
serve_request fails l (to_relay loads method id body) s =
    bot_relay_handler fails loads l method id body s

list-Keeps :
    (fails : Fails) (lists : Option String) (l : Lookup) (method : Method)
    (body : Option BotRelayRequest) (s : Tables)
    → Keeps s
    → Keeps (bot_relays_handler fails lists l method body s).0
unfolding bot_relays_handler
list-Keeps fails none l get body s k = k
list-Keeps fails (some e) l get body s k = k
list-Keeps fails lists l post none s k = k
list-Keeps fails lists l post (some req) s k = create_relay-Keeps fails l s req k
list-Keeps fails lists l put body s k = k
list-Keeps fails lists l delete body s k = k
list-Keeps fails lists l other_method body s k = k

on_relay-Keeps :
    (fails : Fails) (l : Lookup) (method : Method) (body : Option BotRelayRequest) (s : Tables)
    (relay : BotRelay)
    → Keeps s
    → Keeps (on_relay fails l method body s relay).0
unfolding on_relay
on_relay-Keeps fails l put none s relay k = k
on_relay-Keeps fails l put (some req) s relay k = put_relay-Keeps fails l s relay req k
on_relay-Keeps fails l delete body s relay k =
    subst Keeps (sym (after_delete-tables (delete_bot_relay fails s relay.id)))
      (delete-Keeps fails s relay.id k)
on_relay-Keeps fails l get body s relay k = k
on_relay-Keeps fails l post body s relay k = k
on_relay-Keeps fails l other_method body s relay k = k

relay-Keeps :
    (fails : Fails) (loads : Option String) (l : Lookup) (method : Method) (id : Option ℕ)
    (body : Option BotRelayRequest) (s : Tables)
    → Keeps s
    → Keeps (bot_relay_handler fails loads l method id body s).0
unfolding bot_relay_handler
relay-Keeps fails loads l method none body s k = k
relay-Keeps fails (some e) l method (some id) body s k = k
relay-Keeps fails none l method (some id) body s k = go (find_relay id s.relays)
  where
    go :
        (o : Option BotRelay)
        → Keeps
            (elim o as (λ x. Tables × Reply) [
              | none ↦ (s, failure 404 "relay_not_found")
              | some relay ↦ on_relay fails l method body s relay
            ]).0
    go none = k
    go (some relay) = on_relay-Keeps fails l method body s relay k

-- Whatever a request asks for, whichever statements of the database fail: if the tables were sound and the relays
-- had times inside their limits, so it is after the request.
pub serve_request-Keeps :
    (fails : Fails) (l : Lookup) (q : Request) (s : Tables)
    → Keeps s
    → Keeps (serve_request fails l q s).0
unfolding serve_request
serve_request-Keeps fails l (to_list lists method body) s k =
    list-Keeps fails lists l method body s k
serve_request-Keeps fails l (to_relay loads method id body) s k =
    relay-Keeps fails loads l method id body s k
