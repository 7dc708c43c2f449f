-- ===== src/Relay/Collect/Complete.antt =====
-- Against a server that serves a fixed history newest first, `collectRelayHistoryMessages` of
-- client/bot/handlers/bot_relay.go misses nothing.
pub mod Pages
pub mod Scan
use save_any_bot.Prelude.{
  ℕ, zero, suc, ◌+◌, ◌≤◌, ◌<◌, ◌≡◌, ◌≢◌, refl, ap, sym, subst, ◌∙◌, Bool, true, false, not, ◌||◌,
  ◌&&◌, String, Option, none, some, List, [], ◌∷◌, ◌++◌, ltb, leb, ◌==◌, if◌then◌else◌, length,
  take, drop, keep, All, arith, Bool-cases, inl, inr, ◌⊎◌, append_assoc, append-nil, keep-append,
  take-append-drop,
}
use save_any_bot.Relay.Collect.{
  RelayMessage, Page, fetched, Collected, collected, did_not_advance, PageScan, is_old, is_seen,
  is_first_scan, scan_page, sort_messages, relay_history_page_size, after_page, after_fetch,
  collect_from, collect,
}
use save_any_bot.Relay.Collect.Complete.Pages.{
  above, below, Descends, last_id, any_old, Unseen, below-below, below-last_id, below-zero,
  below-Descends, last_id_bounded, last_id_pos, take-Descends, drop-Descends, above-append,
}
use save_any_bot.Relay.Collect.Complete.Scan.{scan_page-eq, Unseen-above, above-append_old}

module _ {ℓ} {M : Type ℓ} where
  -- The newest messages below an offset.
  unfoldable pub serve : List (RelayMessage M) → ℕ → ℕ → Page M
  unfolding below
  serve history k offset = fetched (take relay_history_page_size (below offset history))

  drop_short : (n : ℕ) (xs : List (RelayMessage M)) → length (take n xs) < n → drop n xs ≡ []
  drop_short zero xs h = absurd (omega arith)
  drop_short (suc n) [] h = refl
  drop_short (suc n) (x ∷ xs) h = drop_short n xs (omega arith)

  full_length :
      (n : ℕ) (xs : List (RelayMessage M)) → n ≤ length (take n xs) → length (take n xs) ≡ n
  full_length zero xs h = refl
  full_length (suc n) [] h = absurd (omega arith)
  full_length (suc n) (x ∷ xs) h = ap suc (full_length n xs (omega arith))

  full_pos :
      (n : ℕ) (xs : List (RelayMessage M))
      → 0 < n
      → n ≤ length (take n xs)
      → Descends xs
      → 0 < last_id 0 (take n xs)
  unfolding last_id
  full_pos zero xs p h d = absurd (omega arith)
  full_pos (suc n) [] p h d = absurd (omega arith)
  full_pos (suc n) (x ∷ xs) p h d = last_id_pos x.id (take n xs) d.0 (take-Descends n xs d.2)

  -- What one round comes to, for a page `p` and what stands behind it.
  after_page-serve :
      (last offset : ℕ) (seen p rest : List (RelayMessage M)) (next : ℕ → PageScan M → Collected M)
      → Descends (p ++ rest)
      → 0 < last_id 0 p
      → (offset ≡ 0) ⊎ (last_id 0 p < offset)
      → (length p < relay_history_page_size → rest ≡ [])
      → (relay_history_page_size ≤ length p
          → next
              (last_id 0 p)
              (record { oldest = 0; reached = false; messages = seen ++ above last p })
            ≡ collected (sort_messages ((seen ++ above last p) ++ above last rest)))
      → after_page
          (some last)
          offset
          (length p)
          (record {
            oldest = last_id 0 p;
            reached = any_old last p || false;
            messages = seen ++ above last p;
          })
          next
        ≡ collected (sort_messages (seen ++ above last (p ++ rest)))
  unfolding after_page is_first_scan
  after_page-serve last offset seen p rest next d pos lt short go =
      elim (Bool-cases (any_old last p)) [
        | inl e ↦ ground (arith, e, above-append_old last p rest d)
        | inr e ↦ elim (Bool-cases (ltb (length p) relay_history_page_size)) [
          | inl c ↦
              let gone : rest ≡ [] = short (ground (arith, c)) in
              ground (arith, e, c, ap (λ r. above last (p ++ r)) gone, append-nil p)
          | inr c ↦
              second
                (false
                  || (any_old last p || false)
                  || ltb (length p) relay_history_page_size
                  || last_id 0 p == 0)
                (not (offset == 0) && leb offset (last_id 0 p)) _ _ _ (ground (arith, e, c, pos))
                (advances lt)
              ∙ go (ground (arith, c))
              ∙ ap (λ l. collected (sort_messages l))
                  (append_assoc seen (above last p) (above last rest)
                    ∙ ap (λ l. seen ++ l) (sym (above-append last p rest)))
        ]
      ]
    where
      second :
          (a b : Bool) (x y z : Collected M)
          → a ≡ false
          → b ≡ false
          → (if a then x else if b then y else z) ≡ z
      second true b x y z h g = absurd (ground (arith, h))
      second false true x y z h g = absurd (ground (arith, g))
      second false false x y z h g = refl

      advances :
          (offset ≡ 0) ⊎ (last_id 0 p < offset)
          → (not (offset == 0) && leb offset (last_id 0 p)) ≡ false
      advances (inl z) = ground (arith, z)
      advances (inr z) = ground (arith, z)

  after_fetch-serve :
      (last offset : ℕ) (seen r : List (RelayMessage M)) (next : ℕ → PageScan M → Collected M)
      → Descends r
      → All (Unseen seen) r
      → (offset ≡ 0) ⊎ (last_id 0 (take relay_history_page_size r) < offset)
      → (relay_history_page_size ≤ length (take relay_history_page_size r)
          → next (last_id 0 (take relay_history_page_size r)) (record {
            oldest = 0;
            reached = false;
            messages = seen ++ above last (take relay_history_page_size r);
          })
            ≡ collected (
                sort_messages (
                  (seen ++ above last (take relay_history_page_size r))
                  ++ above last (drop relay_history_page_size r))))
      → after_fetch
          (some last)
          offset
          (record { oldest = 0; reached = false; messages = seen })
          (fetched (take relay_history_page_size r))
          next
        ≡ collected (sort_messages (seen ++ above last r))
  unfolding after_fetch
  after_fetch-serve last offset seen [] next d u lt go =
      unfold above in ap (λ l. collected (sort_messages l)) (sym (append-nil seen))
  after_fetch-serve last offset seen (m ∷ ms) next d u lt go =
      let n = relay_history_page_size in
      let p = take n (m ∷ ms) in
      let rest = drop n (m ∷ ms) in
      let whole : p ++ rest ≡ m ∷ ms = take-append-drop n (m ∷ ms) in
      ap (λ s. after_page (some last) offset (length p) s next)
        (scan_page-eq last (record { oldest = 0; reached = false; messages = seen }) p
          (take-Descends n (m ∷ ms) d) (All-take_unseen n (m ∷ ms) u) (inl refl))
      ∙ after_page-serve last offset seen p rest next (subst Descends (sym whole) d)
          (unfold last_id in last_id_pos m.id (take 9 ms) d.0 (take-Descends 9 ms d.2)) lt
          (drop_short n (m ∷ ms)) go
      ∙ ap (λ l. collected (sort_messages (seen ++ above last l))) whole
    where
      All-take_unseen :
          (n : ℕ) (xs : List (RelayMessage M))
          → All (Unseen seen) xs
          → All (Unseen seen) (take n xs)
      All-take_unseen zero xs h = tt
      All-take_unseen (suc n) [] h = tt
      All-take_unseen (suc n) (x ∷ xs) h = (h.0, All-take_unseen n xs h.1)

  collect_from-serve :
      (history : List (RelayMessage M)) (last fuel k offset : ℕ) (seen : List (RelayMessage M))
      → Descends history
      → 0 < offset
      → offset < fuel
      → All (Unseen seen) (below offset history)
      → collect_from
          (serve history)
          (some last)
          fuel
          k
          offset
          (record { oldest = 0; reached = false; messages = seen })
        ≡ collected (sort_messages (seen ++ above last (below offset history)))
  unfolding collect_from serve
  collect_from-serve history last zero k offset seen d p f u = absurd (omega arith)
  collect_from-serve history last (suc fuel) k offset seen d p f u =
      let n = relay_history_page_size in
      let r = below offset history in
      let dr : Descends r = below-Descends offset history d in
      let o' = last_id 0 (take n r) in
      let lt : o' < offset = last_id_bounded n offset 0 history p p in
      after_fetch-serve last offset seen r (collect_from (serve history) (some last) fuel (suc k))
        dr u (inr lt)
        λ full.
          let pos : 0 < o' = full_pos n r (omega arith) full dr in
          let rest : below o' history ≡ drop n r =
            sym (below-below offset o' history pos (inr lt))
            ∙ below-last_id 9 0 r (full_length n r full) dr in
          subst
            (λ l.
              collect_from (serve history) (some last) fuel (suc k) o'
                (record { oldest = 0; reached = false; messages = seen ++ above last (take n r) })
              ≡ collected (sort_messages ((seen ++ above last (take n r)) ++ above last l)))
            rest
            (collect_from-serve history last fuel (suc k) o' (seen ++ above last (take n r)) d pos
              (omega arith)
              (subst (All (Unseen (seen ++ above last (take n r)))) (sym rest) (
                Unseen-above last seen (take n r) (drop n r)
                  (subst Descends (sym (take-append-drop n r)) dr)
                  (subst (All (Unseen seen)) (sym (take-append-drop n r)) u))))

  All-Unseen : (xs : List (RelayMessage M)) → All (Unseen []) xs
  unfolding is_seen
  All-Unseen [] = tt
  All-Unseen (x ∷ xs) = (refl, All-Unseen xs)

  -- Against a server that serves a fixed history newest first, ten messages at a time, the scan for a
  -- cursor collects exactly the messages above it, oldest first: none is missed, whatever the number
  -- of pages.
  pub collect-serve :
      (history : List (RelayMessage M)) (last : ℕ)
      → Descends history
      → collect (serve history) (some last) ≡ collected (sort_messages (above last history))
  unfolding collect serve
  collect-serve history last d =
      let n = relay_history_page_size in
      let o' = last_id 0 (take n history) in
      ap
        (λ r.
          after_fetch (some last) 0 (record { oldest = 0; reached = false; messages = [] })
            (fetched (take n r)) (λ o s. collect_from (serve history) (some last) (suc o) 1 o s))
        (below-zero history)
      ∙ after_fetch-serve last 0 [] history
          (λ o s. collect_from (serve history) (some last) (suc o) 1 o s) d (All-Unseen history)
          (inl refl)
          λ full.
            let pos : 0 < o' = full_pos n history (omega arith) full d in
            let rest : below o' history ≡ drop n history =
              below-last_id 9 0 history (full_length n history full) d in
            subst
              (λ l.
                collect_from (serve history) (some last) (suc o') 1 o'
                  (record { oldest = 0; reached = false; messages = above last (take n history) })
                ≡ collected (sort_messages (above last (take n history) ++ above last l)))
              rest
              (collect_from-serve history last (suc o') 1 o' (above last (take n history)) d pos
                (omega arith)
                (subst (All (Unseen (above last (take n history)))) (sym rest) (
                  Unseen-above last [] (take n history) (drop n history)
                    (subst Descends (sym (take-append-drop n history)) d)
                    (All-Unseen (take n history ++ drop n history)))))
