-- ===== src/Batch/Groups.antt =====
-- core/tasks/batchtfile/execute.go: how a batch is cut into groups, and the order in which they are
-- processed. What the processing of a group does is a parameter, on a state `W`: downloads, uploads
-- and the records. Storages are compared as Go compares interface values, by an identity here, and
-- `is_saver` tells which of them are batch savers.
pub mod Partition
pub mod Execution
use save_any_bot.Prelude.{
  ℕ, zero, suc, Bool, true, false, not, ◌&&◌, ◌||◌, String, Option, none, some, List, [], ◌∷◌, ◌++◌,
  ◌==◌, str_eq, if◌then◌else◌, length, take_while, drop_while,
}
use save_any_bot.TaskEvent.{TaskError}

pub record TaskElement : Type 0 where
  pub id : String
  pub storage : ℕ
  pub path : String
  pub local_path : String
  pub stream : Bool
  pub source_group_key : String
  pub source_caption : String
  pub preserve_caption : Bool

pub record ExecutionGroup : Type 0 where
  pub elems : List TaskElement
  pub uses_batch_saver : Bool

pub same_group : TaskElement → TaskElement → Bool
same_group elem next =
    next.storage == elem.storage && str_eq next.source_group_key elem.source_group_key

module _ (is_saver : ℕ → Bool) where
  is_single : TaskElement → Bool
  is_single elem = not (is_saver elem.storage) || str_eq elem.source_group_key ""

  -- The loop of `executionGroups`; each round uses up one element at least.
  groups_from : ℕ → List TaskElement → List ExecutionGroup
  unfolding is_single same_group
  groups_from zero elems = []
  groups_from (suc fuel) [] = []
  groups_from (suc fuel) (elem ∷ elems) =
      let singles = groups_from fuel elems in
      let later = groups_from fuel (drop_while (same_group elem) elems) in
      if is_single elem
      then record { elems = elem ∷ []; uses_batch_saver = false } ∷ singles
      else (record { elems = elem ∷ take_while (same_group elem) elems; uses_batch_saver = true }
          ∷ later)

  unfoldable pub execution_groups : List TaskElement → List ExecutionGroup
  unfolding groups_from
  execution_groups elems = groups_from (length elems) elems

-- The groups from the front that do not use a batch saver, and their elements.
abbrev pub is_plain : ExecutionGroup → Bool
is_plain g = not g.uses_batch_saver

unfoldable pub flatten_groups : List ExecutionGroup → List TaskElement
flatten_groups [] = []
flatten_groups (g ∷ gs) = g.elems ++ flatten_groups gs

-- An error that ends the loop of `Execute`; another is logged and forgotten.
unfoldable pub is_fatal : Bool → Option TaskError → Bool
is_fatal ignore_errors none = false
is_fatal ignore_errors (some e) = not ignore_errors || e.is_canceled

module _ {ℓ} {W : Type ℓ} (process_batch : List TaskElement → W → W × Option TaskError)
    (process_elements : List TaskElement → W → W × Option TaskError) (ignore_errors : Bool) where
  -- The loop of `Execute` over the groups; each round uses up one group at least.
  run_groups : ℕ → List ExecutionGroup → W → W × Option TaskError
  unfolding is_fatal flatten_groups
  run_groups zero gs w = (w, none)
  run_groups (suc fuel) [] w = (w, none)
  run_groups (suc fuel) (g ∷ gs) w =
      let plain = drop_while is_plain gs in
      let (w', err) =
        if g.uses_batch_saver
        then process_batch g.elems w
        else process_elements (g.elems ++ flatten_groups (take_while is_plain gs)) w in
      let next = run_groups fuel (if g.uses_batch_saver then gs else plain) w' in
      if is_fatal ignore_errors err then (w', err) else next

  -- `Execute`: `start` and `finish` are `OnStart`, and `finishItems` with `OnDone`.
  unfoldable pub execute :
      (W → W) → (Option TaskError → W → W) → List ExecutionGroup → W → W × Option TaskError
  unfolding run_groups
  execute start finish groups w =
      let (w', err) = run_groups (length groups) groups (start w) in (finish err w', err)
