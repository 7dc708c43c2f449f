-- ===== src/Relay/Process/Resume.antt =====
-- One scan after another: `scanRelay` of client/bot/handlers/bot_relay.go goes on where an error stopped it.
use save_any_bot.Prelude.{
  ℕ, ◌≡◌, ◌≤◌, ◌<◌, refl, ap, sym, subst, ◌∙◌, true, false, none, some, List, [], ◌∷◌, ◌++◌, ltb,
  All, All-map, arith, Bool-cases, inl, inr,
}
use save_any_bot.Relay.Collect.{
  RelayMessage, collected, is_old, insert_message, sort_messages, collect,
}
use save_any_bot.Relay.Collect.Sorted.{Ascends, IsNew, IsScan, collect-IsScan}
use save_any_bot.Relay.Collect.Complete.Pages.{above, Descends, last_id}
use save_any_bot.Relay.Collect.Complete.{serve, collect-serve}
use save_any_bot.Relay.Store.{BotRelay}
use save_any_bot.Relay.Process.{
  ScanState, Env, process_from, process_relay_history_messages, after_collect, scan_relay,
}
use save_any_bot.Relay.Process.Cursor.{IsAt, Progress, process-Progress}

module _ {ℓ} {M : Type ℓ} where
  -- Above an ID that is above `m`, `m` has no part.
  above-insert_message_old :
      (c : ℕ) (m : RelayMessage M) (xs : List (RelayMessage M))
      → ltb c m.id ≡ false
      → above c (insert_message m xs) ≡ above c xs
  unfolding insert_message above
  above-insert_message_old c m [] h = ground (arith, h)
  above-insert_message_old c m (x ∷ xs) h = ground (arith, h, above-insert_message_old c m xs h)

  above-insert_message :
      (c : ℕ) (m : RelayMessage M) (xs : List (RelayMessage M))
      → ltb c m.id ≡ true
      → above c (insert_message m xs) ≡ insert_message m (above c xs)
  unfolding insert_message above
  above-insert_message c m [] h = ground (arith, h)
  above-insert_message c m (x ∷ xs) h = ground (arith, h, above-insert_message c m xs h)

  above-sort_messages :
      (c : ℕ) (xs : List (RelayMessage M)) → above c (sort_messages xs) ≡ sort_messages (above c xs)
  unfolding sort_messages above
  above-sort_messages c [] = refl
  above-sort_messages c (x ∷ xs) = elim (Bool-cases (ltb c x.id)) [
    | inl e ↦
        above-insert_message c x (sort_messages xs) e
        ∙ ap (insert_message x) (above-sort_messages c xs)
        ∙ rw e refl
    | inr e ↦
        above-insert_message_old c x (sort_messages xs) e ∙ above-sort_messages c xs ∙ rw e refl
  ]

  above-above : (a c : ℕ) (xs : List (RelayMessage M)) → a ≤ c → above c (above a xs) ≡ above c xs
  unfolding above
  above-above a c [] h = refl
  above-above a c (x ∷ xs) h = ground (arith, above-above a c xs h, h)

  above-All : (c : ℕ) (xs : List (RelayMessage M)) → All (λ x. c < x.id) xs → above c xs ≡ xs
  unfolding above
  above-All c [] h = refl
  above-All c (x ∷ xs) h = ground (arith, above-All c xs h.1, h.0)

  -- Of a list that rises, what is above the last ID of a first part is the other part.
  above-last_id :
      (last : ℕ) (xs ys : List (RelayMessage M))
      → Ascends (xs ++ ys)
      → All (λ x. last < x.id) (xs ++ ys)
      → (above (last_id last xs) (xs ++ ys) ≡ ys) × (last ≤ last_id last xs)
  unfolding above last_id
  above-last_id last [] ys a h = (above-All last ys h, omega arith)
  above-last_id last (x ∷ xs) ys a h =
      let r = above-last_id x.id xs ys a.1 a.0 in
      (ground (arith, r.0, r.1), omega (arith, r.1, h.0))

  IsNew-above : (last : ℕ) (x : RelayMessage M) → IsNew (some last) x → last < x.id
  unfolding is_old
  IsNew-above last x h = ground (arith, h)

  resumes_at :
      (history : List (RelayMessage M)) (last : ℕ) (xs ys : List (RelayMessage M))
      → Descends history
      → sort_messages (above last history) ≡ xs ++ ys
      → collect (serve history) (some (last_id last xs)) ≡ collected ys
  resumes_at history last xs ys d e =
      let c = last_id last xs in
      let scan : IsScan (some last) (collected (xs ++ ys)) =
        subst (IsScan (some last)) (collect-serve history last d ∙ ap collected e)
          (collect-IsScan (serve history) (some last)) in
      let r =
        above-last_id last xs ys scan.0
          (All-map (IsNew (some last)) (λ x. last < x.id) (xs ++ ys) (IsNew-above last) scan.1) in
      collect-serve history c d
      ∙ ap (λ l. collected (sort_messages l)) (sym (above-above last c history r.1))
      ∙ ap collected (sym (above-sort_messages c (above last history)) ∙ ap (above c) e ∙ r.0)

module _ {ℓ} {M W : Type ℓ} (env : Env M W) where
  -- A scan over a history that is served newest first, ten at a time, by a relay whose cursor is at `last`: it takes the messages
  -- above the cursor, oldest first, and finishes a first part of them. The payloads of these went well,
  -- in order; if it ends with an error, the rest is not empty and begins with the message at which the error came; the
  -- cursor is at the last finished message; and a scan from that cursor collects exactly the rest, so
  -- no message is passed over and none is finished twice.
  pub scan_relay-resumes :
      (history : List (RelayMessage M)) (relay : BotRelay) (last : ℕ) (s : ScanState W)
      → Descends history
      → relay.last_message_id ≡ some last
      → IsAt relay last s.tables
      → (p : Progress env relay last s
          (sort_messages (above last history))
          (scan_relay env true none (serve history) relay s))
        × (collect (serve history) (some (last_id last p.finished)) ≡ collected p.rest)
  unfolding scan_relay after_collect process_from
  scan_relay-resumes history relay last s d e h =
      let ms = sort_messages (above last history) in
      let run : scan_relay env true none (serve history) relay s
          ≡ process_relay_history_messages env relay s ms =
        ap (λ o. after_collect env relay s (collect (serve history) o)) e
        ∙ ap (after_collect env relay s) (collect-serve history last d)
        ∙ ap (λ o. process_from env relay o s ms) e in
      let p =
        subst (Progress env relay last s ms) (sym run) (process-Progress env relay last s ms h) in
      (p, resumes_at history last p.finished p.rest d p.whole)
