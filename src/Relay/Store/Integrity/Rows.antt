-- ===== src/Relay/Store/Integrity/Rows.antt =====
-- What the writes of database/bot_relay.go keep of the rows of the relays.
use save_any_bot.Prelude.{
  ℕ, ◌<◌, ◌≡◌, refl, ◌∙◌, Bool, true, false, some, List, [], ◌∷◌, ◌++◌, keep, All, if◌then◌else◌,
  arith,
}
use save_any_bot.Relay.Store.{BotRelay, count, on_route, has_id, set_cursor, same_route}
use save_any_bot.Relay.Store.History.{count-le, count-append}

-- No two rows are on one route, no two have one ID.
abbrev pub UniqueRoutes : List BotRelay → Type 0
UniqueRoutes [] = Unit
UniqueRoutes (r ∷ rs) = (count (on_route r.source_chat_id r.target_bot_id) rs ≡ 0) × UniqueRoutes rs

abbrev pub UniqueIds : List BotRelay → Type 0
UniqueIds [] = Unit
UniqueIds (r ∷ rs) = (count (has_id r.id) rs ≡ 0) × UniqueIds rs

pub UniqueRoutes-keep :
    (p : BotRelay → Bool) (rs : List BotRelay) → UniqueRoutes rs → UniqueRoutes (keep p rs)
UniqueRoutes-keep p [] h = tt
UniqueRoutes-keep p (r ∷ rs) h = either (p r) (UniqueRoutes-keep p rs h.1)
  where
    either :
        (b : Bool)
        → UniqueRoutes (keep p rs)
        → UniqueRoutes (if b then r ∷ keep p rs else keep p rs)
    either true t =
        (omega (arith, count-le (on_route r.source_chat_id r.target_bot_id) p rs, h.0), t)
    either false t = t

pub UniqueIds-keep :
    (p : BotRelay → Bool) (rs : List BotRelay) → UniqueIds rs → UniqueIds (keep p rs)
UniqueIds-keep p [] h = tt
UniqueIds-keep p (r ∷ rs) h = either (p r) (UniqueIds-keep p rs h.1)
  where
    either : (b : Bool) → UniqueIds (keep p rs) → UniqueIds (if b then r ∷ keep p rs else keep p rs)
    either true t = (omega (arith, count-le (has_id r.id) p rs, h.0), t)
    either false t = t

pub UniqueRoutes-append :
    (rs : List BotRelay) (x : BotRelay)
    → UniqueRoutes rs
    → count (on_route x.source_chat_id x.target_bot_id) rs ≡ 0
    → UniqueRoutes (rs ++ x ∷ [])
unfolding count on_route
UniqueRoutes-append [] x h n = (refl, tt)
UniqueRoutes-append (r ∷ rs) x h n = (
  ground (arith, count-append (on_route r.source_chat_id r.target_bot_id) rs (x ∷ []), h.0, n),
  UniqueRoutes-append rs x h.1 (ground (arith, n)),
)

pub UniqueIds-append :
    (rs : List BotRelay) (x : BotRelay)
    → UniqueIds rs
    → All (λ r. r.id < x.id) rs
    → UniqueIds (rs ++ x ∷ [])
unfolding count has_id
UniqueIds-append [] x h n = (refl, tt)
UniqueIds-append (r ∷ rs) x h n = (
  ground (arith, count-append (has_id r.id) rs (x ∷ []), h.0, n.0),
  UniqueIds-append rs x h.1 n.1,
)

-- A write that leaves the two columns of the route, and the ID.
pub count-set_cursor_id :
    (relay : BotRelay) (m i : ℕ) (rs : List BotRelay)
    → count (has_id i) (set_cursor relay m rs) ≡ count (has_id i) rs
unfolding count has_id set_cursor
count-set_cursor_id relay m i [] = refl
count-set_cursor_id relay m i (r ∷ rs) = ground (arith, count-set_cursor_id relay m i rs)

count-set_cursor_route :
    (relay : BotRelay) (m a b : ℕ) (rs : List BotRelay)
    → count (on_route a b) (set_cursor relay m rs) ≡ count (on_route a b) rs
unfolding count on_route set_cursor
count-set_cursor_route relay m a b [] = refl
count-set_cursor_route relay m a b (r ∷ rs) = ground (arith, count-set_cursor_route relay m a b rs)

pub set_cursor-UniqueRoutes :
    (relay : BotRelay) (m : ℕ) (rs : List BotRelay)
    → UniqueRoutes rs
    → UniqueRoutes (set_cursor relay m rs)
unfolding set_cursor
set_cursor-UniqueRoutes relay m [] h = tt
set_cursor-UniqueRoutes relay m (r ∷ rs) h =
    either (same_route relay r) (set_cursor-UniqueRoutes relay m rs h.1)
  where
    n : count (on_route r.source_chat_id r.target_bot_id) (set_cursor relay m rs) ≡ 0
    n = count-set_cursor_route relay m r.source_chat_id r.target_bot_id rs ∙ h.0

    either :
        (b : Bool)
        → UniqueRoutes (set_cursor relay m rs)
        → UniqueRoutes
            ((if b then record r { last_message_id = some m } else r) ∷ set_cursor relay m rs)
    either true t = (n, t)
    either false t = (n, t)

pub set_cursor-UniqueIds :
    (relay : BotRelay) (m : ℕ) (rs : List BotRelay)
    → UniqueIds rs
    → UniqueIds (set_cursor relay m rs)
unfolding set_cursor
set_cursor-UniqueIds relay m [] h = tt
set_cursor-UniqueIds relay m (r ∷ rs) h =
    either (same_route relay r) (set_cursor-UniqueIds relay m rs h.1)
  where
    n : count (has_id r.id) (set_cursor relay m rs) ≡ 0
    n = count-set_cursor_id relay m r.id rs ∙ h.0

    either :
        (b : Bool)
        → UniqueIds (set_cursor relay m rs)
        → UniqueIds
            ((if b then record r { last_message_id = some m } else r) ∷ set_cursor relay m rs)
    either true t = (n, t)
    either false t = (n, t)

pub set_cursor-below :
    (n : ℕ) (relay : BotRelay) (m : ℕ) (rs : List BotRelay)
    → All (λ r. r.id < n) rs
    → All (λ r. r.id < n) (set_cursor relay m rs)
unfolding set_cursor
set_cursor-below n relay m [] h = tt
set_cursor-below n relay m (r ∷ rs) h = (ground (arith, h.0), set_cursor-below n relay m rs h.1)
