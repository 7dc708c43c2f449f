-- ===== src/Relay/Dialogue/Settles.antt =====
-- How the wait for the answers of the target bot in client/bot/handlers/bot_relay.go ends.
use save_any_bot.Prelude.{ℕ, ◌≡◌, ◌<◌, true, List, [], ◌∷◌, ◌++◌, length, ◌⊎◌}
use save_any_bot.Relay.Dialogue.{
  Event, quiet_fires, timeout_fires, ctx_done, Waiting, Outcome, adds_tasks, timed_out, cancelled,
  still_waits,
}
use save_any_bot.Relay.Dialogue.Answers.{answered}

module _ {ℓ} {F : Type ℓ} where
  -- How a wait over these events ends, when it had `had` before them.
  pub data Settles (target start : ℕ) (had : List F) (es : List (Event F))
      : Outcome F → Type ℓ where
    settled :
        (before after : List (Event F)) (e : Event F) (fs : List F)
        → es ≡ before ++ e ∷ after
        → fs ≡ had ++ answered target start before
        → 0 < length fs
        → (e ≡ quiet_fires) ⊎ (e ≡ timeout_fires)
        → Settles target start had es (adds_tasks fs)
    gave_up :
        (before after : List (Event F))
        → es ≡ before ++ timeout_fires ∷ after
        → had ++ answered target start before ≡ []
        → Settles target start had es timed_out
    stopped :
        (before after : List (Event F))
        → es ≡ before ++ ctx_done ∷ after
        → Settles target start had es cancelled
    waits :
        (w : Waiting F)
        → w.files ≡ had ++ answered target start es
        → Settles target start had es (still_waits w)

  -- A started quiet timer means that there is a file.
  abbrev Started : Waiting F → Type 0
  Started w = w.quiet_started ≡ true → 0 < length w.files
