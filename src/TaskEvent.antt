-- ===== src/TaskEvent.antt =====
-- pkg/taskevent/taskevent.go: the bus for task lifecycle events. A sink is a function on the state
-- `W` of whatever observes the tasks; a context carries the values that this package stores in it.
pub mod Delivery
mod Examples
use save_any_bot.Prelude.{ℕ, Bool, true, false, String, Option, none, some, List, [], ◌∷◌, ◌++◌}

-- A Go error: its message, and whether `errors.Is(err, context.Canceled)`.
pub record TaskError : Type 0 where
  pub is_canceled : Bool
  pub message : String

pub data Phase : Type 0 where
  phase_queued phase_start phase_progress phase_done : Phase

unfoldable pub phase_string : Phase → String
phase_string phase_queued = "queued"
phase_string phase_start = "start"
phase_string phase_progress = "progress"
phase_string phase_done = "done"

abbrev pub source_api : String
source_api = "api"

abbrev pub source_bot : String
source_bot = "bot"

abbrev pub source_relay : String
source_relay = "relay"

-- Byte and file counts are never negative.
pub record Event : Type 0 where
  pub task_id : String
  pub task_type : String
  pub title : String
  pub source : String
  pub phase : Phase
  pub total_bytes : ℕ
  pub downloaded_bytes : ℕ
  pub total_files : ℕ
  pub downloaded_files : ℕ
  pub err : Option TaskError

-- The literal of an event that gives no counts.
abbrev pub lifecycle_event : String → String → String → String → Phase → Option TaskError → Event
lifecycle_event task_id task_type title source phase err = record {
  task_id = task_id;
  task_type = task_type;
  title = title;
  source = source;
  phase = phase;
  total_bytes = 0;
  downloaded_bytes = 0;
  total_files = 0;
  downloaded_files = 0;
  err = err;
}

abbrev pub Sink {ℓ} : Type ℓ → Type ℓ
Sink W = Event → W → W

-- What `ctx.Value` finds under this package's two keys.
pub record Context {ℓ} (W : Type ℓ) : Type ℓ where
  pub sinks : Option (List (Sink W))
  pub source : Option String

module _ {ℓ} {W : Type ℓ} where
  unfoldable pub with_source : Context W → String → Context W
  with_source ctx s = record ctx { source = some s }

  -- A context that is `nil` is `none`; the type assertion gives "" where no source is stored.
  unfoldable pub source_from_context : Option (Context W) → String
  source_from_context none = ""
  source_from_context (some ctx) = elim ctx.source [ none ↦ "" | some s ↦ s ]

  abbrev pub existing_sinks : Option (List (Sink W)) → List (Sink W)
  existing_sinks none = []
  existing_sinks (some sinks) = sinks

  unfoldable pub with_sink : Context W → List (Sink W) → Context W
  with_sink ctx [] = ctx
  with_sink ctx (s ∷ ss) = record ctx { sinks = some (existing_sinks ctx.sinks ++ s ∷ ss) }

  unfoldable pub deliver : List (Sink W) → Event → W → W
  deliver [] e w = w
  deliver (s ∷ ss) e w = deliver ss e (s e w)

  emit_to_context : Option (Context W) → Event → W → W
  emit_to_context none e w = w
  emit_to_context (some ctx) e w = deliver (existing_sinks ctx.sinks) e w

  emit_to_global : Option (Sink W) → Event → W → W
  emit_to_global none e w = w
  emit_to_global (some sink) e w = sink e w

  -- `Emit`, with the global sink that `SetGlobalSink` has set.
  unfoldable pub emit : Option (Sink W) → Option (Context W) → Event → W → W
  unfolding emit_to_context emit_to_global deliver
  emit global ctx e w = emit_to_global global e (emit_to_context ctx e w)
