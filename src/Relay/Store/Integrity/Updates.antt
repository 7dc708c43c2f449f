-- ===== src/Relay/Store/Integrity/Updates.antt =====
-- What `UpdateBotRelay` of database/bot_relay.go keeps of the rows of the relays.
use save_any_bot.Prelude.{
  ℕ, ◌<◌, ◌≡◌, refl, ap, sym, ◌∙◌, Bool, true, false, List, [], ◌∷◌, ◌==◌, All, if◌then◌else◌,
  arith, Bool-cases, inl, inr,
}
use save_any_bot.Relay.Store.{
  BotRelay, count, on_route, has_id, is_taken, update_rows, updated_fields,
}
use save_any_bot.Relay.Store.Integrity.Rows.{UniqueRoutes, UniqueIds}

pub count-update_rows_id :
    (relay : BotRelay) (b : Bool) (i : ℕ) (rs : List BotRelay)
    → count (has_id i) (update_rows relay b rs) ≡ count (has_id i) rs
unfolding count has_id update_rows updated_fields
count-update_rows_id relay b i [] = refl
count-update_rows_id relay b i (r ∷ rs) = ground (arith, count-update_rows_id relay b i rs)

pub update_rows-UniqueIds :
    (relay : BotRelay) (b : Bool) (rs : List BotRelay)
    → UniqueIds rs
    → UniqueIds (update_rows relay b rs)
unfolding update_rows updated_fields
update_rows-UniqueIds relay b [] h = tt
update_rows-UniqueIds relay b (r ∷ rs) h =
    either (r.id == relay.id) (update_rows-UniqueIds relay b rs h.1)
  where
    n : count (has_id r.id) (update_rows relay b rs) ≡ 0
    n = count-update_rows_id relay b r.id rs ∙ h.0

    either :
        (c : Bool)
        → UniqueIds (update_rows relay b rs)
        → UniqueIds ((if c then updated_fields relay b r else r) ∷ update_rows relay b rs)
    either true t = (n, t)
    either false t = (n, t)

pub update_rows-below :
    (n : ℕ) (relay : BotRelay) (b : Bool) (rs : List BotRelay)
    → All (λ r. r.id < n) rs
    → All (λ r. r.id < n) (update_rows relay b rs)
unfolding update_rows updated_fields
update_rows-below n relay b [] h = tt
update_rows-below n relay b (r ∷ rs) h = (ground (arith, h.0), update_rows-below n relay b rs h.1)

pub update_rows-absent :
    (relay : BotRelay) (b : Bool) (rs : List BotRelay)
    → count (has_id relay.id) rs ≡ 0
    → update_rows relay b rs ≡ rs
unfolding count has_id update_rows
update_rows-absent relay b [] h = refl
update_rows-absent relay b (r ∷ rs) h = ground (arith, h, update_rows-absent relay b rs)

-- No other row is on the route, and none is the relay.
count-route_free :
    (relay : BotRelay) (rs : List BotRelay)
    → count (has_id relay.id) rs ≡ 0
    → count (is_taken relay) rs ≡ 0
    → count (on_route relay.source_chat_id relay.target_bot_id) rs ≡ 0
unfolding count has_id is_taken on_route
count-route_free relay [] h g = refl
count-route_free relay (r ∷ rs) h g = ground (arith, h, g, count-route_free relay rs)

-- A route that is not the relay's is on no more rows than before.
count-update_rows_route :
    (relay : BotRelay) (b : Bool) (x : BotRelay) (rs : List BotRelay)
    → on_route relay.source_chat_id relay.target_bot_id x ≡ false
    → count (on_route x.source_chat_id x.target_bot_id) rs ≡ 0
    → count (on_route x.source_chat_id x.target_bot_id) (update_rows relay b rs) ≡ 0
unfolding count on_route update_rows updated_fields
count-update_rows_route relay b x [] h g = refl
count-update_rows_route relay b x (r ∷ rs) h g =
    ground (arith, h, g, count-update_rows_route relay b x rs)

pub update_rows-UniqueRoutes :
    (relay : BotRelay) (b : Bool) (rs : List BotRelay)
    → UniqueIds rs
    → UniqueRoutes rs
    → count (is_taken relay) rs ≡ 0
    → UniqueRoutes (update_rows relay b rs)
unfolding update_rows updated_fields count is_taken
update_rows-UniqueRoutes relay b [] i h t = tt
update_rows-UniqueRoutes relay b (r ∷ rs) i h t = elim (Bool-cases (r.id == relay.id)) [
  | inl e ↦
      let same : r.id ≡ relay.id = ground (arith, e) in
      let absent : count (has_id relay.id) rs ≡ 0 =
        ap (λ n. count (has_id n) rs) (sym same) ∙ i.0 in
      let none_taken : count (is_taken relay) rs ≡ 0 = ground (arith, t) in
      rw (e, update_rows-absent relay b rs absent)
        (count-route_free relay rs absent none_taken, h.1)
  | inr e ↦
      let none_taken : count (is_taken relay) rs ≡ 0 = ground (arith, t) in
      let off : on_route relay.source_chat_id relay.target_bot_id r ≡ false =
        ground (arith, t, e) in
      rw e (
        count-update_rows_route relay b r rs off h.0,
        update_rows-UniqueRoutes relay b rs i.1 h.1 none_taken,
      )
]
