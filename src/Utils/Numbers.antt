-- ===== src/Utils/Numbers.antt =====
-- `BestThreads` of common/utils/dlutil/dl.go. Sizes and numbers of threads are not negative.
use save_any_bot.Prelude.{ℕ, ◌≤◌, ◌<◌, ◌≡◌, List, [], ◌∷◌, ltb, leb, if◌then◌else◌, arith}

pub record ThreadsLevel : Type 0 where
  pub threads : ℕ
  pub size : ℕ

-- 10, 50, 200 and 500 MiB.
abbrev pub threads_levels : List ThreadsLevel
threads_levels =
    record { threads = 1; size = 10485760 }
    ∷ record { threads = 2; size = 52428800 }
    ∷ record { threads = 4; size = 209715200 }
    ∷ record { threads = 8; size = 524288000 }
    ∷ []

unfoldable pub smaller : ℕ → ℕ → ℕ
smaller a b = if leb a b then a else b

unfoldable pub threads_from : List ThreadsLevel → ℕ → ℕ → ℕ
unfolding smaller
threads_from [] size max = max
threads_from (l ∷ ls) size max =
    let rest = threads_from ls size max in if ltb size l.size then smaller l.threads max else rest

unfoldable pub best_threads : ℕ → ℕ → ℕ
unfolding threads_from
best_threads size max = threads_from threads_levels size max

-- The number of threads is at most the given maximum, grows with the size of the file, is 1 for a
-- file of less than 10 MiB if the maximum is positive, and is the maximum from 500 MiB on.
pub best_threads-max :
    (size larger max : ℕ)
    → size ≤ larger
    → (best_threads size max ≤ max)
      × (best_threads size max ≤ best_threads larger max)
      × (size < 10485760 → 0 < max → best_threads size max ≡ 1)
      × (524288000 ≤ size → best_threads size max ≡ max)
unfolding best_threads threads_from smaller
best_threads-max size larger max h = ground (arith, h)
