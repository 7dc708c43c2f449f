-- ===== src/TaskEvent/Examples.antt =====
-- Events of pkg/taskevent with four observers that record their numbers.
use save_any_bot.Prelude.{List, [], ◌∷◌, ◌++◌, ℕ}
use save_any_bot.TaskEvent.{Sink}

abbrev tag : ℕ → Sink (List ℕ)
tag n e seen = seen ++ n ∷ []
