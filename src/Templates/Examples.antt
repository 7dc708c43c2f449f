-- ===== src/Templates/Examples.antt =====
-- An example for the output templates.
use save_any_bot.Prelude.{◌≡◌, ◌≢◌, refl, List, [], ◌∷◌, ◌++◌, Option, length, All, arith}
use save_any_bot.Templates.{Text, short_flag, strip_prefix, rewritten, rewrite_output_templates}
use save_any_bot.Templates.Reading.{Takes}
use save_any_bot.Templates.Rooted.{Rooted, rewrite_output_templates-Rooted}

abbrev join_slash : Text → Text → Text
join_slash a b = a ++ 47 ∷ b

join_slash_full : (a b : Text) → join_slash a b ≢ []
join_slash_full [] b e = ground arith
join_slash_full (x ∷ xs) b e = ground arith

abbrev below_slash : Text → Text → Option Text
below_slash a p = strip_prefix (a ++ 47 ∷ []) p

-- The directory /d.
abbrev downloads : Text
downloads = 47 ∷ 100 ∷ []

-- -o link:a and -v
abbrev user_flags : List Text
user_flags = short_flag ∷ (108 ∷ 105 ∷ 110 ∷ 107 ∷ 58 ∷ 97 ∷ []) ∷ (45 ∷ 118 ∷ []) ∷ []

abbrev bot_flags : List Text
bot_flags =
    short_flag ∷ (108 ∷ 105 ∷ 110 ∷ 107 ∷ 58 ∷ 47 ∷ 100 ∷ 47 ∷ 97 ∷ []) ∷ (45 ∷ 118 ∷ []) ∷ []

accepted :
    rewrite_output_templates join_slash below_slash downloads user_flags ≡ rewritten bot_flags
unfolding rewrite_output_templates strip_prefix
accepted = refl

rewrite_output_templates-Rooted_example :
    ((ts : List Text) × Takes bot_flags ts × All (Rooted join_slash below_slash downloads) ts)
    × (length bot_flags ≡ length user_flags)
rewrite_output_templates-Rooted_example =
    rewrite_output_templates-Rooted join_slash below_slash downloads join_slash_full user_flags
      bot_flags accepted
