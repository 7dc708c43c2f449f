-- ===== src/Utils/Pathname/Unique.antt =====
-- Which candidate `UniquePath` of common/utils/fsutil/unique.go takes.
use save_any_bot.Prelude.{
  ℕ, zero, suc, ◌+◌, ◌≤◌, ◌<◌, ◌≡◌, refl, Bool, true, false, String, arith, ◌⊎◌, inl, inr, ap, ◌∙◌,
  Bool-cases,
}
use save_any_bot.Utils.Pathname.{unique_from, unique_path}

module _ (join : String → String → String) (numbered : String → ℕ → String)
    (random_name : String → String) (exists : String → Bool) where
  -- The candidates in order: the name itself, then its numbered variants.
  unfoldable pub candidate : String → String → ℕ → String
  candidate base name zero = join base name
  candidate base name (suc i) = join base (numbered name (suc i))

  abbrev pub IsFirstFree : String → String → ℕ → String → Type 0
  IsFirstFree base name max_attempts chosen =
      ((i : ℕ) × (i ≤ max_attempts)
        × (chosen ≡ candidate base name i)
        × (exists chosen ≡ false)
        × ((j : ℕ) → j < i → exists (candidate base name j) ≡ true))
      ⊎ ((chosen ≡ join base (random_name name))
          × ((j : ℕ) → j ≤ max_attempts → exists (candidate base name j) ≡ true))

  next_taken :
      (base name : String) (k : ℕ)
      → ((j : ℕ) → j ≤ k → exists (candidate base name j) ≡ true)
      → exists (candidate base name (suc k)) ≡ true
      → (j : ℕ) → j ≤ suc k
      → exists (candidate base name j) ≡ true
  next_taken base name k taken e j h = elim (last j h) [
    | inl p ↦ taken j p
    | inr p ↦ ap (λ i. exists (candidate base name i)) p ∙ e
  ]
    where
      last : (j : ℕ) → j ≤ suc k → (j ≤ k) ⊎ (j ≡ suc k)
      last j h = omega arith

  unique_from-IsFirstFree :
      (base name : String) (left k max_attempts : ℕ)
      → max_attempts ≡ k + left
      → ((j : ℕ) → j ≤ k → exists (candidate base name j) ≡ true)
      → IsFirstFree base name max_attempts
          (unique_from join numbered random_name exists base name left (suc k))
  unfolding unique_from candidate
  unique_from-IsFirstFree base name zero k m h taken = inr (refl, λ j p. taken j (omega arith))
  unique_from-IsFirstFree base name (suc left) k m h taken =
      elim (Bool-cases (exists (join base (numbered name (suc k))))) [
        | inl e ↦
            rw (e, unique_from)
              (unique_from-IsFirstFree base name left (suc k) m (omega arith)
                (next_taken base name k taken e))
        | inr e ↦
            rw (e, unique_from) (inl (suc k, omega arith, refl, e, λ j p. taken j (omega arith)))
      ]

  -- `UniquePath` takes the first path that is free of the name itself and the numbered variants up
  -- to the given number, and the name with a random suffix exactly if all of those are taken; it
  -- never takes a path that the test finds taken, other than that random one.
  pub unique_path-IsFirstFree :
      (base name : String) (max_attempts : ℕ)
      → IsFirstFree base name max_attempts
          (unique_path join numbered random_name exists base name max_attempts)
  unfolding unique_path candidate
  unique_path-IsFirstFree base name m = elim (Bool-cases (exists (join base name))) [
    | inl e ↦ rw (e, unique_path) (unique_from-IsFirstFree base name m 0 m (omega arith) (only e))
    | inr e ↦ rw (e, unique_path) (inl (0, omega arith, refl, e, λ j p. ground arith))
  ]
    where
      only :
          exists (join base name) ≡ true → (j : ℕ) → j ≤ 0 → exists (candidate base name j) ≡ true
      only e zero p = e
      only e (suc j) p = ground arith
