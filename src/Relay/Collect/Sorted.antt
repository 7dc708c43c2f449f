-- ===== src/Relay/Collect/Sorted.antt =====
-- What `collectRelayHistoryMessages` of client/bot/handlers/bot_relay.go gives is sorted, new and without
-- repetitions.
use save_any_bot.Prelude.{
  ℕ, zero, suc, ◌<◌, ◌≡◌, refl, ap, Bool, true, false, not, ◌||◌, ◌&&◌, Option, List, [], ◌∷◌, ◌++◌,
  ltb, leb, ◌==◌, if◌then◌else◌, length, All, All-append, arith, Bool-cases, inl, inr, ◌∙◌,
}
use save_any_bot.Relay.Collect.{
  RelayMessage, Page, fetched, fetch_failed, Collected, collected, failed, did_not_advance,
  out_of_fuel, PageScan, is_old, is_seen, scan_item, scan_page, insert_message, sort_messages,
  is_first_scan, relay_history_page_size, after_page, after_fetch, collect_from, collect,
}

module _ {ℓ} {M : Type ℓ} where
  -- The IDs rise strictly.
  abbrev pub Ascends : List (RelayMessage M) → Type 0
  Ascends [] = Unit
  Ascends (m ∷ ms) = All (λ x. m.id < x.id) ms × Ascends ms

  abbrev Distinct : List (RelayMessage M) → Type 0
  Distinct [] = Unit
  Distinct (m ∷ ms) = (is_seen m.id ms ≡ false) × Distinct ms

  -- A message that is above the cursor and has a proper ID.
  abbrev pub IsNew : Option ℕ → RelayMessage M → Type 0
  IsNew last m = (0 < m.id) × (is_old last m.id ≡ false)

  All-insert_message {κ} :
      (P : RelayMessage M → Type κ) (m : RelayMessage M) (xs : List (RelayMessage M))
      → P m
      → All P xs
      → All P (insert_message m xs)
  unfolding insert_message
  All-insert_message P m [] p h = (p, tt)
  All-insert_message P m (x ∷ xs) p h = elim (Bool-cases (leb m.id x.id)) [
    | inl e ↦ rw (e, insert_message) (p, h)
    | inr e ↦ rw (e, insert_message) (h.0, All-insert_message P m xs p h.1)
  ]

  is_seen-insert_message :
      (id : ℕ) (m : RelayMessage M) (xs : List (RelayMessage M))
      → is_seen id (insert_message m xs) ≡ is_seen id (m ∷ xs)
  unfolding insert_message is_seen
  is_seen-insert_message id m [] = refl
  is_seen-insert_message id m (x ∷ xs) = ground (arith, is_seen-insert_message id m xs)

  All-weaken :
      (a b : ℕ) (xs : List (RelayMessage M))
      → a < b
      → All (λ x. b < x.id) xs
      → All (λ x. a < x.id) xs
  All-weaken a b [] p h = tt
  All-weaken a b (x ∷ xs) p h = (omega arith, All-weaken a b xs p h.1)

  insert_message-Ascends :
      (m : RelayMessage M) (xs : List (RelayMessage M))
      → is_seen m.id xs ≡ false
      → Ascends xs
      → Ascends (insert_message m xs)
  unfolding insert_message is_seen
  insert_message-Ascends m [] p h = (tt, tt)
  insert_message-Ascends m (x ∷ xs) p h = elim (Bool-cases (leb m.id x.id)) [
    | inl e ↦
        let lt : m.id < x.id = ground (arith, e, p) in
        rw (e, insert_message) ((lt, All-weaken m.id x.id xs lt h.0), h)
    | inr e ↦
        let lt : x.id < m.id = ground (arith, e) in
        let unseen : is_seen m.id xs ≡ false = ground (arith, p) in
        rw (e, insert_message)
          (
            All-insert_message (λ y. x.id < y.id) m xs lt h.0,
            insert_message-Ascends m xs unseen h.1,
          )
  ]

  is_seen-sort_messages :
      (id : ℕ) (xs : List (RelayMessage M)) → is_seen id (sort_messages xs) ≡ is_seen id xs
  unfolding sort_messages is_seen
  is_seen-sort_messages id [] = refl
  is_seen-sort_messages id (x ∷ xs) =
      is_seen-insert_message id x (sort_messages xs)
      ∙ ap (λ b. if x.id == id then true else b) (is_seen-sort_messages id xs)

  sort_messages-Ascends : (xs : List (RelayMessage M)) → Distinct xs → Ascends (sort_messages xs)
  unfolding sort_messages
  sort_messages-Ascends [] h = tt
  sort_messages-Ascends (x ∷ xs) h =
      insert_message-Ascends x (sort_messages xs) (is_seen-sort_messages x.id xs ∙ h.0)
        (sort_messages-Ascends xs h.1)

  All-sort_messages {κ} :
      (P : RelayMessage M → Type κ) (xs : List (RelayMessage M))
      → All P xs
      → All P (sort_messages xs)
  unfolding sort_messages
  All-sort_messages P [] h = tt
  All-sort_messages P (x ∷ xs) h =
      All-insert_message P x (sort_messages xs) h.0 (All-sort_messages P xs h.1)

  is_seen-append :
      (id : ℕ) (xs : List (RelayMessage M)) (m : RelayMessage M)
      → is_seen id (xs ++ m ∷ []) ≡ (if is_seen id xs then true else m.id == id)
  unfolding is_seen
  is_seen-append id [] m = ground arith
  is_seen-append id (x ∷ xs) m = ground (arith, is_seen-append id xs m)

  Distinct-append :
      (xs : List (RelayMessage M)) (m : RelayMessage M)
      → Distinct xs
      → is_seen m.id xs ≡ false
      → Distinct (xs ++ m ∷ [])
  unfolding is_seen
  Distinct-append [] m h p = (refl, tt)
  Distinct-append (x ∷ xs) m h p = (
    ground (arith, is_seen-append x.id xs m, h.0, p),
    Distinct-append xs m h.1 (ground (arith, p)),
  )

  -- What the loops keep of the messages.
  record IsGood (last : Option ℕ) (ms : List (RelayMessage M)) : Type ℓ where
    distinct : Distinct ms
    fresh : All (IsNew last) ms

  scan_item-IsGood :
      (last : Option ℕ) (s : PageScan M) (m : RelayMessage M)
      → IsGood last s.messages
      → IsGood last (scan_item last s m).messages
  unfolding scan_item
  scan_item-IsGood last s m g = elim (Bool-cases (m.id == 0)) [
    | inl e ↦ rw (e, scan_item) g
    | inr e ↦ elim (Bool-cases (is_old last m.id)) [
      | inl o ↦ rw (e, o, scan_item) g
      | inr o ↦ elim (Bool-cases (is_seen m.id s.messages)) [
        | inl q ↦ rw (e, o, q, scan_item) g
        | inr q ↦
            rw (e, o, q, scan_item)
              record {
                distinct = Distinct-append s.messages m g.distinct q;
                fresh =
                    All-append (IsNew last) s.messages (m ∷ []) g.fresh
                      ((ground (arith, e), o), tt);
              }
      ]
    ]
  ]

  scan_page-IsGood :
      (last : Option ℕ) (s : PageScan M) (ms : List (RelayMessage M))
      → IsGood last s.messages
      → IsGood last (scan_page last s ms).messages
  unfolding scan_page
  scan_page-IsGood last s [] g = g
  scan_page-IsGood last s (m ∷ ms) g =
      scan_page-IsGood last (scan_item last s m) ms (scan_item-IsGood last s m g)

  abbrev pub IsScan : Option ℕ → Collected M → Type 0
  IsScan last (collected ms) = Ascends ms × All (IsNew last) ms
  IsScan last (failed e) = Unit
  IsScan last did_not_advance = Unit
  IsScan last out_of_fuel = Unit

  sort_messages-IsScan :
      (last : Option ℕ) (ms : List (RelayMessage M))
      → IsGood last ms
      → IsScan last (collected (sort_messages ms))
  sort_messages-IsScan last ms g =
      (sort_messages-Ascends ms g.distinct, All-sort_messages (IsNew last) ms g.fresh)

  after_page-IsScan :
      (last : Option ℕ) (offset size : ℕ) (s : PageScan M) (next : ℕ → PageScan M → Collected M)
      → IsGood last s.messages
      → ((o : ℕ) (t : PageScan M) → IsGood last t.messages → IsScan last (next o t))
      → IsScan last (after_page last offset size s next)
  unfolding after_page
  after_page-IsScan last offset size s next g h =
      either (is_first_scan last || s.reached || ltb size relay_history_page_size || s.oldest == 0)
        (not (offset == 0) && leb offset s.oldest)
    where
      either :
          (a b : Bool)
          → IsScan last (
              if a
              then collected (sort_messages s.messages)
              else if b
              then did_not_advance
              else next s.oldest (record s { oldest = 0; reached = false }))
      either true b = sort_messages-IsScan last s.messages g
      either false true = tt
      either false false = h s.oldest (record s { oldest = 0; reached = false }) g

  after_fetch-IsScan :
      (last : Option ℕ) (offset : ℕ) (s : PageScan M) (p : Page M)
      (next : ℕ → PageScan M → Collected M)
      → IsGood last s.messages
      → ((o : ℕ) (t : PageScan M) → IsGood last t.messages → IsScan last (next o t))
      → IsScan last (after_fetch last offset s p next)
  unfolding after_fetch
  after_fetch-IsScan last offset s (fetch_failed e) next g h = tt
  after_fetch-IsScan last offset s (fetched []) next g h = sort_messages-IsScan last s.messages g
  after_fetch-IsScan last offset s (fetched (m ∷ ms)) next g h =
      after_page-IsScan last offset (length (m ∷ ms)) (scan_page last s (m ∷ ms)) next
        (scan_page-IsGood last s (m ∷ ms) g) h

  collect_from-IsScan :
      (fetch : ℕ → ℕ → Page M) (last : Option ℕ) (fuel k offset : ℕ) (s : PageScan M)
      → IsGood last s.messages
      → IsScan last (collect_from fetch last fuel k offset s)
  unfolding collect_from
  collect_from-IsScan fetch last zero k offset s g = tt
  collect_from-IsScan fetch last (suc fuel) k offset s g =
      after_fetch-IsScan last offset s (fetch k offset) (collect_from fetch last fuel (suc k)) g
        λ o t q. collect_from-IsScan fetch last fuel (suc k) o t q

  -- Whatever the server answers at each call, the messages that are collected rise strictly in their
  -- IDs, so none is there twice, and all are above the cursor.
  pub collect-IsScan : (fetch : ℕ → ℕ → Page M) (last : Option ℕ) → IsScan last (collect fetch last)
  unfolding collect
  collect-IsScan fetch last =
      after_fetch-IsScan last 0 (record { oldest = 0; reached = false; messages = [] }) (fetch 0 0)
        (λ o s. collect_from fetch last (suc o) 1 o s) (record { distinct = tt; fresh = tt })
        λ o t q. collect_from-IsScan fetch last (suc o) 1 o t q
