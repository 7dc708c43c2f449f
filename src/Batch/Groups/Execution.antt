-- ===== src/Batch/Groups/Execution.antt =====
-- Execute of core/tasks/batchtfile/execute.go: what is processed, and when the loop ends.
use save_any_bot.Prelude.{
  ℕ, zero, suc, ◌≤◌, ◌≡◌, refl, ap, Bool, true, false, Option, none, some, List, [], ◌∷◌, ◌++◌,
  append_assoc, append-nil, if◌then◌else◌, length, take_while, drop_while, arith, Bool-cases, inl,
  inr,
}
use save_any_bot.TaskEvent.{TaskError}
use save_any_bot.Batch.Groups.{
  TaskElement, ExecutionGroup, is_plain, is_fatal, flatten_groups, run_groups, execute,
}
use save_any_bot.Batch.Groups.Partition.{length-drop_while}

-- What is handed over at once: a group to a batch saver, or the elements of neighbouring groups
-- that use none.
pub record Turn : Type 0 where
  pub elems : List TaskElement
  pub is_batch : Bool

unfoldable pub join : List TaskElement → List Turn → List Turn
join es [] = record { elems = es; is_batch = false } ∷ []
join es (t ∷ ts) =
    if t.is_batch
    then record { elems = es; is_batch = false } ∷ t ∷ ts
    else record { elems = es ++ t.elems; is_batch = false } ∷ ts

unfoldable pub turns : List ExecutionGroup → List Turn
turns [] = []
turns (g ∷ gs) =
    let rest = turns gs in
    if g.uses_batch_saver
    then record { elems = g.elems; is_batch = true } ∷ rest
    else join g.elems rest

unfoldable pub flatten_turns : List Turn → List TaskElement
flatten_turns [] = []
flatten_turns (t ∷ ts) = t.elems ++ flatten_turns ts

join-flatten :
    (es : List TaskElement) (ts : List Turn) → flatten_turns (join es ts) ≡ es ++ flatten_turns ts
unfolding join flatten_turns
join-flatten es [] = refl
join-flatten es (t ∷ ts) = ground (arith, append_assoc es t.elems (flatten_turns ts))

turns-flatten : (gs : List ExecutionGroup) → flatten_turns (turns gs) ≡ flatten_groups gs
unfolding turns flatten_turns flatten_groups
turns-flatten [] = refl
turns-flatten (g ∷ gs) =
    ground (
      arith,
      turns-flatten gs,
      join-flatten g.elems (turns gs),
      ap (◌++◌ g.elems) (turns-flatten gs),
    )

-- A run of plain groups is one turn.
turns-plain :
    (es : List TaskElement) (gs : List ExecutionGroup)
    → join es (turns gs)
      ≡ record { elems = es ++ flatten_groups (take_while is_plain gs); is_batch = false }
        ∷ turns (drop_while is_plain gs)
unfolding join turns flatten_groups
turns-plain es [] = ground (arith, append-nil es)
turns-plain es (g ∷ gs) = ground (arith, turns-plain g.elems gs, append-nil es)

-- What ends the loop: a cancellation, and any error unless errors are to be ignored.
unfoldable pub ends_loop : Bool → Option TaskError → Bool
ends_loop ignore_errors none = false
ends_loop true (some e) = e.is_canceled
ends_loop false (some e) = true

is_fatal-ends_loop :
    (ignore_errors : Bool) (err : Option TaskError)
    → is_fatal ignore_errors err ≡ ends_loop ignore_errors err
unfolding is_fatal ends_loop
is_fatal-ends_loop b none = refl
is_fatal-ends_loop true (some e) = refl
is_fatal-ends_loop false (some e) = refl

module _ {ℓ} {W : Type ℓ} (process_batch : List TaskElement → W → W × Option TaskError)
    (process_elements : List TaskElement → W → W × Option TaskError) (ignore_errors : Bool) where
  -- One turn after the other, up to the first error that ends the loop.
  unfoldable pub run_turns : List Turn → W → W × Option TaskError
  unfolding ends_loop
  run_turns [] w = (w, none)
  run_turns (t ∷ ts) w =
      let (w', err) = if t.is_batch then process_batch t.elems w else process_elements t.elems w in
      let next = run_turns ts w' in if ends_loop ignore_errors err then (w', err) else next

  run_groups-run_turns :
      (fuel : ℕ) (gs : List ExecutionGroup) (w : W)
      → length gs ≤ fuel
      → run_groups process_batch process_elements ignore_errors fuel gs w ≡ run_turns (turns gs) w
  unfolding run_groups run_turns turns
  run_groups-run_turns zero [] w h = refl
  run_groups-run_turns zero (g ∷ gs) w h = absurd (omega arith)
  run_groups-run_turns (suc fuel) [] w h = refl
  run_groups-run_turns (suc fuel) (g ∷ gs) w h = elim (Bool-cases g.uses_batch_saver) [
    | inl q ↦
        rw (q, run_groups, run_turns, turns)
          (ground (
            arith,
            run_groups-run_turns fuel gs (process_batch g.elems w).0,
            is_fatal-ends_loop ignore_errors (process_batch g.elems w).1,
          ))
    | inr q ↦
        let es = g.elems ++ flatten_groups (take_while is_plain gs) in
        rw (q, run_groups, turns)
          (rw (turns-plain g.elems gs, run_turns)
            (ground (
              arith,
              length-drop_while is_plain gs,
              run_groups-run_turns fuel (drop_while is_plain gs) (process_elements es w).0,
              is_fatal-ends_loop ignore_errors (process_elements es w).1,
            )))
  ]

  run_turns-fatal :
      (ts : List Turn) (w : W) (e : TaskError)
      → (run_turns ts w).1 ≡ some e
      → ignore_errors ≡ true
      → e.is_canceled ≡ true
  unfolding run_turns ends_loop
  run_turns-fatal [] w e h i = cc
  run_turns-fatal (t ∷ ts) w e h i = ground (
    arith,
    run_turns-fatal ts (process_batch t.elems w).0 e,
    run_turns-fatal ts (process_elements t.elems w).0 e,
  )

  -- `Execute` hands over turns one after the other, each a batch group or a whole run of the groups
  -- between two of them, which together hold every element once and in order; it stops behind the
  -- first turn whose error is a cancellation, or that has any error if errors are not to be ignored,
  -- and returns that error; after the last turn it returns none.
  pub execute-run_turns :
      (start : W → W) (finish : Option TaskError → W → W) (gs : List ExecutionGroup) (w : W)
      → let (w', err) = run_turns (turns gs) (start w) in
        (execute process_batch process_elements ignore_errors start finish gs w
          ≡ (finish err w', err))
        × (flatten_turns (turns gs) ≡ flatten_groups gs)
        × ((e : TaskError) → err ≡ some e → ignore_errors ≡ true → e.is_canceled ≡ true)
  unfolding execute
  execute-run_turns start finish gs w = (
    ap (λ r. (finish r.1 r.0, r.1)) (run_groups-run_turns (length gs) gs (start w) (omega arith)),
    turns-flatten gs,
    λ e. run_turns-fatal (turns gs) (start w) e,
  )
