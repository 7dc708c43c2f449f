-- ===== src/Retry/Examples.antt =====
-- An example for the retry middleware.
use save_any_bot.Prelude.{
  ℕ, ltb, Bool, false, String, Option, none, some, List, [], ◌∷◌, str_eq, if◌then◌else◌,
}

abbrev is_first : String → List String → Bool
is_first e [] = false
is_first e (x ∷ xs) = str_eq e x

abbrev times_out_twice : ℕ → Option String
times_out_twice k = if ltb k 2 then some "FLOOD" else none
