-- ===== src/Batch/Groups/Partition.antt =====
-- executionGroups of core/tasks/batchtfile/execute.go cuts the elements into groups.
use save_any_bot.Prelude.{
  ℕ, zero, suc, ◌==◌, ◌≤◌, ◌≡◌, refl, ap, ◌∙◌, Bool, true, false, List, [], ◌∷◌, ◌++◌, str_eq_iff,
  if◌then◌else◌, length, take_while, drop_while, arith, All, Bool-cases, inl, inr, ◌⊎◌, ◌≢◌,
}
use save_any_bot.Batch.Groups.{
  TaskElement, ExecutionGroup, same_group, is_single, groups_from, execution_groups, flatten_groups,
}

module _ {ℓ} {A : Type ℓ} where
  pub take_while-append : (p : A → Bool) (xs : List A) → take_while p xs ++ drop_while p xs ≡ xs
  take_while-append p [] = refl
  take_while-append p (x ∷ xs) = ground (arith, take_while-append p xs)

  pub length-drop_while : (p : A → Bool) (xs : List A) → length (drop_while p xs) ≤ length xs
  length-drop_while p [] = omega arith
  length-drop_while p (x ∷ xs) = ground (arith, length-drop_while p xs)

  take_while-All : (p : A → Bool) (xs : List A) → All (λ x. p x ≡ true) (take_while p xs)
  take_while-All p [] = tt
  take_while-All p (x ∷ xs) = ground (arith, take_while-All p xs)

  abbrev pub HeadFails : (A → Bool) → List A → Type 0
  HeadFails p [] = Unit
  HeadFails p (x ∷ xs) = p x ≡ false

  drop_while-HeadFails : (p : A → Bool) (xs : List A) → HeadFails p (drop_while p xs)
  drop_while-HeadFails p [] = tt
  drop_while-HeadFails p (x ∷ xs) = ground (arith, drop_while-HeadFails p xs)

module _ (is_saver : ℕ → Bool) where
  groups_from-flatten :
      (fuel : ℕ) (elems : List TaskElement)
      → length elems ≤ fuel
      → flatten_groups (groups_from is_saver fuel elems) ≡ elems
  unfolding groups_from flatten_groups
  groups_from-flatten zero [] h = refl
  groups_from-flatten zero (e ∷ es) h = absurd (omega arith)
  groups_from-flatten (suc fuel) [] h = refl
  groups_from-flatten (suc fuel) (e ∷ es) h = elim (Bool-cases (is_single is_saver e)) [
    | inl q ↦ rw (q, groups_from) (ap (◌∷◌ e) (groups_from-flatten fuel es (omega arith)))
    | inr q ↦
        rw (q, groups_from)
          (ap (◌∷◌ e) (
            ap (◌++◌ (take_while (same_group e) es)) (
              groups_from-flatten fuel (drop_while (same_group e) es)
                (omega (arith, length-drop_while (same_group e) es)))
            ∙ take_while-append (same_group e) es))
  ]

  -- One element alone, outside any batch saver.
  abbrev pub IsSingle : List TaskElement → Type 0
  IsSingle [] = ⊥
  IsSingle (e ∷ []) = (is_saver e.storage ≡ false) ⊎ (e.source_group_key ≡ "")
  IsSingle (e ∷ f ∷ es) = ⊥

  -- What follows does not begin with an element of the same storage and source group.
  abbrev pub IsEnd : TaskElement → List TaskElement → Type 0
  IsEnd e [] = Unit
  IsEnd e (f ∷ fs) = (f.storage ≢ e.storage) ⊎ (f.source_group_key ≢ e.source_group_key)

  -- Elements of one source group that go to one batch saver, and are followed by no further one.
  abbrev pub IsBatch : List TaskElement → List TaskElement → Type 0
  IsBatch [] after = ⊥
  IsBatch (e ∷ es) after =
      (is_saver e.storage ≡ true)
      × (e.source_group_key ≢ "")
      × All (λ f. (f.storage ≡ e.storage) × (f.source_group_key ≡ e.source_group_key)) es
      × IsEnd e after

  abbrev pub IsGroup : ExecutionGroup → List TaskElement → Type 0
  IsGroup g after = if g.uses_batch_saver then IsBatch g.elems after else IsSingle g.elems

  -- Each group is as it must be, given the elements of the later ones.
  abbrev pub AreGroups : List ExecutionGroup → Type 0
  AreGroups [] = Unit
  AreGroups (g ∷ gs) = IsGroup g (flatten_groups gs) × AreGroups gs

  same_group-All :
      (e : TaskElement) (es : List TaskElement)
      → All (λ f. same_group e f ≡ true) es
      → All
          (λ (f : TaskElement). (f.storage ≡ e.storage) × (f.source_group_key ≡ e.source_group_key))
          es
  unfolding same_group
  same_group-All e [] h = tt
  same_group-All e (f ∷ es) h =
      ground (arith, str_eq_iff f.source_group_key e.source_group_key, same_group-All e es h.1)

  same_group-IsEnd :
      (e : TaskElement) (fs : List TaskElement) → HeadFails (same_group e) fs → IsEnd e fs
  unfolding same_group
  same_group-IsEnd e [] h = tt
  same_group-IsEnd e (f ∷ fs) h = elim (Bool-cases (f.storage == e.storage)) [
    | inl q ↦ inr (λ k. ground (arith, h, q, k, str_eq_iff f.source_group_key e.source_group_key))
    | inr q ↦ inl (λ k. ground (arith, q, k))
  ]

  is_single-IsSingle : (e : TaskElement) → is_single is_saver e ≡ true → IsSingle (e ∷ [])
  unfolding is_single
  is_single-IsSingle e q = ground (arith, str_eq_iff e.source_group_key "")

  take_while-IsBatch :
      (e : TaskElement) (es after : List TaskElement)
      → is_single is_saver e ≡ false
      → after ≡ drop_while (same_group e) es
      → IsBatch (e ∷ take_while (same_group e) es) after
  unfolding is_single
  take_while-IsBatch e es after q p = (
    ground arith,
    λ empty. ground (arith, str_eq_iff e.source_group_key ""),
    same_group-All e _ (take_while-All (same_group e) es),
    same_group-IsEnd e after (rw p (drop_while-HeadFails (same_group e) es)),
  )

  groups_from-AreGroups :
      (fuel : ℕ) (elems : List TaskElement)
      → length elems ≤ fuel
      → AreGroups (groups_from is_saver fuel elems)
  unfolding groups_from
  groups_from-AreGroups zero elems h = tt
  groups_from-AreGroups (suc fuel) [] h = tt
  groups_from-AreGroups (suc fuel) (e ∷ es) h = elim (Bool-cases (is_single is_saver e)) [
    | inl q ↦
        rw (q, groups_from) (is_single-IsSingle e q, groups_from-AreGroups fuel es (omega arith))
    | inr q ↦
        let fits : length (drop_while (same_group e) es) ≤ fuel =
          omega (arith, length-drop_while (same_group e) es) in
        rw (q, groups_from)
          (
            take_while-IsBatch e es _ q
                (groups_from-flatten fuel (drop_while (same_group e) es) fits),
            groups_from-AreGroups fuel (drop_while (same_group e) es) fits,
          )
  ]

  -- `executionGroups` neither drops nor reorders an element; a group without a batch saver is one
  -- element whose storage is none or whose message has no group; and every other group is a longest
  -- run of neighbours of one source group for one storage, which is a batch saver.
  pub execution_groups-AreGroups :
      (elems : List TaskElement)
      → (flatten_groups (execution_groups is_saver elems) ≡ elems)
        × AreGroups (execution_groups is_saver elems)
  unfolding execution_groups
  execution_groups-AreGroups elems = (
    groups_from-flatten (length elems) elems (omega arith),
    groups_from-AreGroups (length elems) elems (omega arith),
  )
