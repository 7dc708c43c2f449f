-- ===== src/Relay/Store/History.antt =====
-- `RecordBotRelayHistory` of database/bot_relay.go: how many rows of a relay it leaves.
use save_any_bot.Prelude.{
  ℕ, ◌+◌, ◌≤◌, ◌≡◌, ◌≢◌, refl, ap, sym, ◌∙◌, Bool, false, not, String, Option, none, some, List, [],
  ◌∷◌, ◌++◌, ◌==◌, map, take, drop, keep, length, All, take-append-drop, arith, inl, inr, ◌⊎◌,
  Bool-cases, Option-cases, subst, length-take,
}
use save_any_bot.Relay.Store.{
  BotRelay, BotRelayHistory, Tables, Fails, deletes_stale, done, aborted, transaction, try, count,
  same_route, of_relay, upsert_history, insert_history, newest_first, row_id, stale_ids,
  contains_id, delete_stale, save_history, history_of, record_bot_relay_history,
  bot_relay_history_limit,
}

module _ {ℓ} {A : Type ℓ} where
  pub count-le : (p q : A → Bool) (xs : List A) → count p (keep q xs) ≤ count p xs
  unfolding count
  count-le p q [] = omega arith
  count-le p q (x ∷ xs) = ground (arith, count-le p q xs)

  pub count-keep : (p q : A → Bool) (xs : List A) → count p (keep q xs) ≡ count q (keep p xs)
  unfolding count
  count-keep p q [] = refl
  count-keep p q (x ∷ xs) = ground (arith, count-keep p q xs)

  pub count-append : (p : A → Bool) (xs ys : List A) → count p (xs ++ ys) ≡ count p xs + count p ys
  unfolding count
  count-append p [] ys = omega arith
  count-append p (x ∷ xs) ys = ground (arith, count-append p xs ys)

  pub count-le_length : (p : A → Bool) (xs : List A) → count p xs ≤ length xs
  unfolding count
  count-le_length p [] = omega arith
  count-le_length p (x ∷ xs) = ground (arith, count-le_length p xs)

  pub count-none : (p : A → Bool) (xs : List A) → All (λ x. p x ≡ false) xs → count p xs ≡ 0
  unfolding count
  count-none p [] h = refl
  count-none p (x ∷ xs) h = ground (arith, count-none p xs h.1, h.0)

-- The rows that stay when some are removed by their IDs.
abbrev pub stays : List ℕ → BotRelayHistory → Bool
stays ids h = not (contains_id ids h.id)

count-insert_history :
    (q : BotRelayHistory → Bool) (h : BotRelayHistory) (xs : List BotRelayHistory)
    → count q (insert_history h xs) ≡ count q (h ∷ xs)
unfolding insert_history count
count-insert_history q h [] = refl
count-insert_history q h (x ∷ xs) = ground (arith, count-insert_history q h xs)

count-newest_first :
    (q : BotRelayHistory → Bool) (xs : List BotRelayHistory)
    → count q (newest_first xs) ≡ count q xs
unfolding newest_first count
count-newest_first q [] = refl
count-newest_first q (x ∷ xs) =
    ground (arith, count-insert_history q x (newest_first xs), count-newest_first q xs)

contains_id-grow :
    (ids : List ℕ) (i : ℕ) (xs : List BotRelayHistory)
    → All (λ x. stays ids x ≡ false) xs
    → All (λ x. stays (i ∷ ids) x ≡ false) xs
unfolding contains_id
contains_id-grow ids i [] h = tt
contains_id-grow ids i (x ∷ xs) h = (ground (arith, h.0), contains_id-grow ids i xs h.1)

All-stays : (xs : List BotRelayHistory) → All (λ x. stays (map row_id xs) x ≡ false) xs
unfolding contains_id
All-stays [] = tt
All-stays (x ∷ xs) = (ground arith, contains_id-grow (map row_id xs) (row_id x) xs (All-stays xs))

-- Among the rows of a relay at most the limit are not stale.
count-stale_ids :
    (id : ℕ) (hs : List BotRelayHistory)
    → count (stays (stale_ids id hs)) (keep (of_relay id) hs) ≤ bot_relay_history_limit
unfolding stale_ids
count-stale_ids id hs =
    let n = bot_relay_history_limit in
    let sorted = newest_first (keep (of_relay id) hs) in
    let q = stays (map row_id (drop n sorted)) in
    let whole : count q (keep (of_relay id) hs)
        ≡ count q (take n sorted) + count q (drop n sorted) =
      sym (count-newest_first q (keep (of_relay id) hs))
      ∙ ap (count q) (sym (take-append-drop n sorted))
      ∙ count-append q (take n sorted) (drop n sorted) in
    omega (
      arith,
      whole,
      count-none q (drop n sorted) (All-stays (drop n sorted)),
      count-le_length q (take n sorted),
      length-take n sorted,
    )

keep_none : (xs : List BotRelayHistory) → keep (stays []) xs ≡ xs
unfolding contains_id
keep_none [] = refl
keep_none (x ∷ xs) = ground (arith, keep_none xs)

delete_stale-cases :
    (fails : Fails) (ids : List ℕ) (s : Tables)
    → (delete_stale fails ids s ≡ done (record s { history = keep (stays ids) s.history }))
      ⊎ ((e : String) × (delete_stale fails ids s ≡ aborted e))
unfolding delete_stale try
delete_stale-cases fails [] s =
    inl (ap (λ l. done (record s { history = l })) (sym (keep_none s.history)))
delete_stale-cases fails (i ∷ is) s = elim (Option-cases (fails deletes_stale)) [
  | inl e ↦ inl (ground (arith, e))
  | inr e ↦ inr (e.0, ground (arith, e.1))
]

Eq-cases : (a b : ℕ) → (a ≡ b) ⊎ (a ≢ b)
Eq-cases a b = elim (Bool-cases (a == b)) [
  | inl e ↦ inl (ground (arith, e))
  | inr e ↦ inr (ground (arith, e))
]

-- Recording either gives an error and changes nothing, or the route is as it was and the tables are those with the row saved
-- and the stale rows of the relay removed.
pub record_bot_relay_history-cases :
    (fails : Fails) (s : Tables) (relay : BotRelay) (message_id : ℕ) (err : Option String) (now : ℕ)
    → let saved : Tables = save_history s relay message_id err now in
      let r = record_bot_relay_history fails s relay message_id err now in
      ((r.0 ≡ s) × (r.1 ≢ none))
      ⊎ ((r.0 ≡ record saved {
        history = keep (stays (stale_ids relay.id saved.history)) saved.history;
      })
          × (r.1 ≡ none)
          × (count (same_route relay) s.relays ≢ 0))
unfolding record_bot_relay_history transaction try
record_bot_relay_history-cases fails s relay message_id err now =
    let saved : Tables = save_history s relay message_id err now in
    elim (delete_stale-cases fails (stale_ids relay.id saved.history) saved) [
      | inl e ↦ ground (arith, e)
      | inr e ↦ ground (arith, e.1)
    ]

abbrev pub IsBounded : Tables → Type 0
IsBounded s = (id : ℕ) → count (of_relay id) s.history ≤ bot_relay_history_limit

count-upsert_history :
    (id : ℕ) (row : BotRelayHistory) (hs : List BotRelayHistory)
    → row.bot_relay_id ≢ id
    → count (of_relay id) (upsert_history row hs) ≡ count (of_relay id) hs
unfolding upsert_history count of_relay
count-upsert_history id row [] n = ground arith
count-upsert_history id row (h ∷ hs) n = ground (arith, count-upsert_history id row hs n)

count-save_history :
    (id : ℕ) (s : Tables) (relay : BotRelay) (message_id : ℕ) (err : Option String) (now : ℕ)
    → relay.id ≢ id
    → count (of_relay id) (save_history s relay message_id err now).history
      ≡ count (of_relay id) s.history
unfolding save_history history_of
count-save_history id s relay message_id none now n = count-upsert_history id _ s.history n
count-save_history id s relay message_id (some e) now n = count-upsert_history id _ s.history n

-- Recording an outcome keeps at most the limit of rows for each relay.
pub record_bot_relay_history-IsBounded :
    (fails : Fails) (s : Tables) (relay : BotRelay) (message_id : ℕ) (err : Option String) (now : ℕ)
    → IsBounded s
    → IsBounded (record_bot_relay_history fails s relay message_id err now).0
record_bot_relay_history-IsBounded fails s relay message_id err now b id =
    let saved : Tables = save_history s relay message_id err now in
    let ids = stale_ids relay.id saved.history in
    let cut = keep (stays ids) saved.history in
    let small : count (of_relay id) cut ≤ bot_relay_history_limit = elim (Eq-cases relay.id id) [
      | inl e ↦
          subst (λ i. count (of_relay i) cut ≤ bot_relay_history_limit) e
            (omega (
              arith,
              count-keep (of_relay relay.id) (stays ids) saved.history,
              count-stale_ids relay.id saved.history,
            ))
      | inr n ↦ omega (
        arith,
        count-le (of_relay id) (stays ids) saved.history,
        count-save_history id s relay message_id err now n,
        b id,
      )
    ] in
    elim (record_bot_relay_history-cases fails s relay message_id err now) [
      | inl h ↦
          subst (λ t. count (of_relay id) t.history ≤ bot_relay_history_limit) (sym h.0) (b id)
      | inr h ↦ subst (λ t. count (of_relay id) t.history ≤ bot_relay_history_limit) (sym h.0) small
    ]
