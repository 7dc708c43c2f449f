-- ===== src/TaskEvent/Delivery.antt =====
-- Who receives an event of pkg/taskevent/taskevent.go, and in which order.
use save_any_bot.Prelude.{◌≡◌, refl, ap, none, some, List, [], ◌∷◌, ◌++◌}
use save_any_bot.TaskEvent.{
  Event, Sink, Context, source_from_context, existing_sinks, with_sink, deliver, emit,
}

module _ {ℓ} {W : Type ℓ} where
  deliver-append :
      (ss ts : List (Sink W)) (e : Event) (w : W)
      → deliver (ss ++ ts) e w ≡ deliver ts e (deliver ss e w)
  unfolding deliver
  deliver-append [] ts e w = refl
  deliver-append (s ∷ ss) ts e w = deliver-append ss ts e (s e w)

  -- Adding sinks to a context keeps its source and the sinks that it had: an event reaches those
  -- first, then the added ones in order, then the global sink.
  pub emit-with_sink :
      (ctx : Context W) (ss : List (Sink W)) (global : Sink W) (e : Event) (w : W)
      → (source_from_context (some (with_sink ctx ss)) ≡ source_from_context (some ctx))
        × (emit (some global) (some (with_sink ctx ss)) e w
            ≡ global e (deliver ss e (emit none (some ctx) e w)))
  unfolding emit with_sink source_from_context
  emit-with_sink ctx [] global e w = (refl, refl)
  emit-with_sink ctx (s ∷ ss) global e w =
      (refl, ap (global e) (deliver-append (existing_sinks ctx.sinks) (s ∷ ss) e w))
