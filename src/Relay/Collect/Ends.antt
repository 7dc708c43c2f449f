-- ===== src/Relay/Collect/Ends.antt =====
-- The loop of `collectRelayHistoryMessages` in client/bot/handlers/bot_relay.go ends, and what it gives.
use save_any_bot.Prelude.{
  ℕ, zero, suc, ◌<◌, ◌≡◌, ◌≢◌, false, Option, [], ◌∷◌, length, arith, inl, inr, ◌⊎◌,
}
use save_any_bot.Relay.Collect.{
  Page, fetched, fetch_failed, Collected, out_of_fuel, PageScan, scan_page, after_page, after_fetch,
  collect_from, collect,
}

module _ {ℓ} {M : Type ℓ} where
  after_page-ne-out_of_fuel :
      (last : Option ℕ) (offset size : ℕ) (s : PageScan M) (next : ℕ → PageScan M → Collected M)
      → ((o : ℕ) (t : PageScan M) → 0 < o → (offset ≡ 0) ⊎ (o < offset) → next o t ≢ out_of_fuel)
      → after_page last offset size s next ≢ out_of_fuel
  unfolding after_page
  after_page-ne-out_of_fuel last offset size s next h =
      ground (arith, h s.oldest (record s { oldest = 0; reached = false }))

  after_fetch-ne-out_of_fuel :
      (last : Option ℕ) (offset : ℕ) (s : PageScan M) (p : Page M)
      (next : ℕ → PageScan M → Collected M)
      → ((o : ℕ) (t : PageScan M) → 0 < o → (offset ≡ 0) ⊎ (o < offset) → next o t ≢ out_of_fuel)
      → after_fetch last offset s p next ≢ out_of_fuel
  unfolding after_fetch
  after_fetch-ne-out_of_fuel last offset s (fetch_failed e) next h = ground arith
  after_fetch-ne-out_of_fuel last offset s (fetched []) next h = ground arith
  after_fetch-ne-out_of_fuel last offset s (fetched (m ∷ ms)) next h =
      after_page-ne-out_of_fuel last offset (length (m ∷ ms)) (scan_page last s (m ∷ ms)) next h

  collect_from-ne-out_of_fuel :
      (fetch : ℕ → ℕ → Page M) (last : Option ℕ) (fuel k offset : ℕ) (s : PageScan M)
      → 0 < offset
      → offset < fuel
      → collect_from fetch last fuel k offset s ≢ out_of_fuel
  unfolding collect_from
  collect_from-ne-out_of_fuel fetch last zero k offset s p h = absurd (omega arith)
  collect_from-ne-out_of_fuel fetch last (suc fuel) k offset s p h =
      after_fetch-ne-out_of_fuel last offset s (fetch k offset)
        (collect_from fetch last fuel (suc k))
        λ o t q r. collect_from-ne-out_of_fuel fetch last fuel (suc k) o t q (below o r)
    where
      below : (o : ℕ) → (offset ≡ 0) ⊎ (o < offset) → o < fuel
      below o r = elim r [ inl e ↦ absurd (omega arith) | inr e ↦ omega arith ]

  -- The loop over the pages of a channel's history ends, whatever the server answers at each call: with
  -- messages, or with the error of a call, or because the history did not advance.
  pub collect-ne-out_of_fuel :
      (fetch : ℕ → ℕ → Page M) (last : Option ℕ) → collect fetch last ≢ out_of_fuel
  unfolding collect
  collect-ne-out_of_fuel fetch last =
      after_fetch-ne-out_of_fuel last 0 (record { oldest = 0; reached = false; messages = [] })
        (fetch 0 0) (λ o s. collect_from fetch last (suc o) 1 o s)
        λ o t q r. collect_from-ne-out_of_fuel fetch last (suc o) 1 o t q (omega arith)
