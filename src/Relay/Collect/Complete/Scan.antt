-- ===== src/Relay/Collect/Complete/Scan.antt =====
-- One page in `collectRelayHistoryMessages` of client/bot/handlers/bot_relay.go, newest first.
use save_any_bot.Prelude.{
  ℕ, ◌≤◌, ◌<◌, ◌≡◌, refl, ap, sym, ◌∙◌, true, false, ◌||◌, some, List, [], ◌∷◌, ◌++◌, ltb, leb,
  ◌==◌, if◌then◌else◌, All, arith, Bool-cases, inl, inr, ◌⊎◌, append_assoc, append-nil, subst,
}
use save_any_bot.Relay.Collect.{RelayMessage, PageScan, is_old, is_seen, scan_item, scan_page}
use save_any_bot.Relay.Collect.Complete.Pages.{above, Descends, last_id, any_old, Unseen}

module _ {ℓ} {M : Type ℓ} where
  -- The oldest ID so far is above a list, or there is none.
  abbrev pub IsAbove : ℕ → List (RelayMessage M) → Type 0
  IsAbove o ms = (o ≡ 0) ⊎ All (λ x. x.id < o) ms

  scan_item-old :
      (last : ℕ) (s : PageScan M) (m : RelayMessage M) (ms : List (RelayMessage M))
      → 0 < m.id
      → IsAbove s.oldest (m ∷ ms)
      → leb m.id last ≡ true
      → scan_item (some last) s m ≡ record s { oldest = m.id; reached = true }
  unfolding scan_item is_old
  scan_item-old last s m ms p (inl a) e = ground (arith, e, a)
  scan_item-old last s m ms p (inr a) e = ground (arith, e, a.0)

  scan_item-new :
      (last : ℕ) (s : PageScan M) (m : RelayMessage M) (ms : List (RelayMessage M))
      → 0 < m.id
      → IsAbove s.oldest (m ∷ ms)
      → leb m.id last ≡ false
      → Unseen s.messages m
      → scan_item (some last) s m ≡ record s { oldest = m.id; messages = s.messages ++ m ∷ [] }
  unfolding scan_item is_old
  scan_item-new last s m ms p (inl a) e u = ground (arith, e, a, u)
  scan_item-new last s m ms p (inr a) e u = ground (arith, e, a.0, u)

  is_seen-append :
      (id : ℕ) (xs : List (RelayMessage M)) (m : RelayMessage M)
      → is_seen id (xs ++ m ∷ []) ≡ (if is_seen id xs then true else m.id == id)
  unfolding is_seen
  is_seen-append id [] m = ground arith
  is_seen-append id (x ∷ xs) m = ground (arith, is_seen-append id xs m)

  pub Unseen-append :
      (seen : List (RelayMessage M)) (m : RelayMessage M) (ms : List (RelayMessage M))
      → All (λ x. x.id < m.id) ms
      → All (Unseen seen) ms
      → All (Unseen (seen ++ m ∷ [])) ms
  Unseen-append seen m [] h u = tt
  Unseen-append seen m (x ∷ xs) h u =
      (ground (arith, is_seen-append x.id seen m, h.0, u.0), Unseen-append seen m xs h.1 u.1)

  -- A page whose IDs fall gives its messages above the cursor, its last ID, and whether it has the
  -- cursor's message or one below.
  pub scan_page-eq :
      (last : ℕ) (s : PageScan M) (ms : List (RelayMessage M))
      → Descends ms
      → All (Unseen s.messages) ms
      → IsAbove s.oldest ms
      → scan_page (some last) s ms ≡ record {
        oldest = last_id s.oldest ms;
        reached = any_old last ms || s.reached;
        messages = s.messages ++ above last ms;
      }
  unfolding scan_page last_id any_old above
  scan_page-eq last s [] d u a = ap (λ l. record s { messages = l }) (sym (append-nil s.messages))
  scan_page-eq last s (m ∷ ms) d u a = elim (Bool-cases (leb m.id last)) [
    | inl e ↦
        let t = record s { oldest = m.id; reached = true } in
        ap (λ r. scan_page (some last) r ms) (scan_item-old last s m ms d.0 a e)
        ∙ scan_page-eq last t ms d.2 u.1 (inr d.1)
        ∙ ground (arith, e)
    | inr e ↦
        let t = record s { oldest = m.id; messages = s.messages ++ m ∷ [] } in
        ap (λ r. scan_page (some last) r ms) (scan_item-new last s m ms d.0 a e u.0)
        ∙ scan_page-eq last t ms d.2 (Unseen-append s.messages m ms d.1 u.1) (inr d.1)
        ∙ ground (arith, e, append_assoc s.messages (m ∷ []) (above last ms))
  ]

  -- What follows a list is not among the part of it that was kept.
  pub Unseen-above :
      (last : ℕ) (seen ms rest : List (RelayMessage M))
      → Descends (ms ++ rest)
      → All (Unseen seen) (ms ++ rest)
      → All (Unseen (seen ++ above last ms)) rest
  unfolding above
  Unseen-above last seen [] rest d u = subst (λ l. All (Unseen l) rest) (sym (append-nil seen)) u
  Unseen-above last seen (m ∷ ms) rest d u = elim (Bool-cases (ltb last m.id)) [
    | inl e ↦
        rw (e, above)
          (subst (λ l. All (Unseen l) rest) (append_assoc seen (m ∷ []) (above last ms))
            (Unseen-above last (seen ++ m ∷ []) ms rest d.2
              (Unseen-append seen m (ms ++ rest) d.1 u.1)))
    | inr e ↦ rw (e, above) (Unseen-above last seen ms rest d.2 u.1)
  ]

  All-is_old :
      (last o : ℕ) (xs : List (RelayMessage M))
      → o ≤ last
      → All (λ x. x.id < o) xs
      → above last xs ≡ []
  unfolding above
  All-is_old last o [] p h = refl
  All-is_old last o (x ∷ xs) p h = ground (arith, All-is_old last o xs p h.1, h.0)

  -- Behind a page that has an old message all are old.
  pub above-append_old :
      (last : ℕ) (ms rest : List (RelayMessage M))
      → Descends (ms ++ rest)
      → any_old last ms ≡ true
      → above last (ms ++ rest) ≡ above last ms
  unfolding above any_old
  above-append_old last [] rest d h = ground arith
  above-append_old last (m ∷ ms) rest d h = elim (Bool-cases (leb m.id last)) [
    | inl e ↦
        let p : m.id ≤ last = ground (arith, e) in
        let q = All-is_old last m.id (ms ++ rest) p d.1 in
        let r = All-is_old last m.id ms p (before ms d.1) in ground (arith, e, q, r)
    | inr e ↦ ground (arith, e, above-append_old last ms rest d.2)
  ]
    where
      before :
          (ms : List (RelayMessage M))
          → All (λ x. x.id < m.id) (ms ++ rest)
          → All (λ x. x.id < m.id) ms
      before [] h = tt
      before (x ∷ xs) h = (h.0, before xs h.1)
