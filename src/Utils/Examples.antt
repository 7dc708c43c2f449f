-- ===== src/Utils/Examples.antt =====
-- Examples for the helpers of common/utils.
use save_any_bot.Prelude.{ℕ, ◌≡◌, Bool, String, List, [], ◌∷◌, str_eq, All, arith}
use save_any_bot.Utils.Args.{Rune, parse_args_respect_quotes}
use save_any_bot.Utils.Args.Quoting.{
  NonEmpty, quote_args, parse_args_respect_quotes-quote_args, parse_args_respect_quotes-NonEmpty,
}

-- `a "b` and a backslash.
abbrev words : List (List Rune)
words = (97 ∷ 32 ∷ 34 ∷ 98 ∷ []) ∷ (92 ∷ []) ∷ []

parse_args_respect_quotes-quote_args_example : parse_args_respect_quotes (quote_args words) ≡ words
parse_args_respect_quotes-quote_args_example =
    parse_args_respect_quotes-quote_args words (omega arith, (omega arith, tt))

parse_args_respect_quotes-NonEmpty_example :
    All NonEmpty (parse_args_respect_quotes (34 ∷ 34 ∷ 32 ∷ 97 ∷ []))
parse_args_respect_quotes-NonEmpty_example =
    parse_args_respect_quotes-NonEmpty (34 ∷ 34 ∷ 32 ∷ 97 ∷ [])

abbrev dirty_name : List ℕ
dirty_name = 97 ∷ 47 ∷ 98 ∷ 46 ∷ 32 ∷ []

abbrev second_of : String → String → String
second_of a b = b

abbrev second_copy : String → ℕ → String
second_copy name i = "cat_1.mp4"

abbrev random_copy : String → String
random_copy name = "cat_x.mp4"

abbrev is_taken : String → Bool
is_taken p = str_eq p "cat.mp4"
