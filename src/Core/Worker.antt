-- ===== src/Core/Worker.antt =====
-- The semaphore slots that a worker of core/core.go holds while it acts.
use save_any_bot.Prelude.{
  ◌≡◌, refl, Bool, true, false, String, Option, List, [], ◌∷◌, ◌++◌, append_assoc, str_eq,
  Bool-cases, inl, inr,
}
use save_any_bot.TaskEvent.{TaskError}
use save_any_bot.Queue.{Task, Fetch, fetched, waits, closed_and_empty}
use save_any_bot.Core.{
  Executable, ExecHooks, Action, takes_slot, frees_slot, exec_command_string, end_hook, process,
  Round, after_get, worker,
}

-- A slot is taken only when none is held, and freed, or anything else done, only when one is.
abbrev pub SlotSafe : Bool → List Action → Type 0
SlotSafe holding [] = Unit
SlotSafe holding (takes_slot ∷ acts) = (holding ≡ false) × SlotSafe true acts
SlotSafe holding (frees_slot ∷ acts) = (holding ≡ true) × SlotSafe false acts
SlotSafe holding (_ ∷ acts) = (holding ≡ true) × SlotSafe holding acts

exec-SlotSafe :
    (cmd : String) (acts : List Action)
    → SlotSafe true acts
    → SlotSafe true (exec_command_string cmd ++ acts)
unfolding exec_command_string
exec-SlotSafe cmd acts h = elim (Bool-cases (str_eq cmd "")) [
  | inl e ↦ rw (e, exec_command_string) h
  | inr e ↦ rw (e, exec_command_string) (refl, h)
]

process-SlotSafe :
    (hooks : ExecHooks) (t : Task Executable) (source : String) (err : Option TaskError)
    (rest : List Action)
    → SlotSafe false rest
    → SlotSafe true (process hooks t source err ++ rest)
unfolding process
process-SlotSafe hooks t source err rest h =
    rw (append_assoc, append_assoc)
      (
        refl,
        exec-SlotSafe hooks.task_before_start _
            (refl, exec-SlotSafe (end_hook hooks err) _ (refl, (refl, (refl, h)))),
      )

after_get-SlotSafe :
    (hooks : ExecHooks) (r : Round) (answer : Fetch Executable) (rest : List Action)
    → SlotSafe false rest
    → SlotSafe true (after_get hooks r answer rest)
unfolding after_get
after_get-SlotSafe hooks r (fetched t) rest h = process-SlotSafe hooks t r.source r.err rest h
after_get-SlotSafe hooks r waits rest h = tt
after_get-SlotSafe hooks r closed_and_empty rest h = tt

-- Over any rounds a worker never takes a second slot, holds one at each of its actions, and frees
-- only a slot that it holds: so `config.C().Workers` slots never make a worker wait for another.
pub worker-SlotSafe : (hooks : ExecHooks) (rs : List Round) → SlotSafe false (worker hooks rs)
unfolding worker
worker-SlotSafe hooks [] = (refl, tt)
worker-SlotSafe hooks (r ∷ rs) =
    (refl, after_get-SlotSafe hooks r r.answer (worker hooks rs) (worker-SlotSafe hooks rs))
