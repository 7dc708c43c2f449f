-- ===== src/Utils/Pathname.antt =====
-- `NormalizePathname` of common/utils/fsutil/fs.go and `UniquePath` of common/utils/fsutil/unique.go.
-- A rune is its code point, and the classes of runes are those of the Unicode tables.
pub mod Clean
pub mod Unique
use save_any_bot.Prelude.{
  ℕ, zero, suc, ◌+◌, Bool, true, false, String, List, [], ◌∷◌, ◌==◌, leb, ltb, if◌then◌else◌,
}

abbrev pub Rune : Type 0
Rune = ℕ

unfoldable pub contains_rune : List Rune → Rune → Bool
contains_rune [] r = false
contains_rune (x ∷ xs) r = let rest = contains_rune xs r in if r == x then true else rest

-- \ / : * ? " < > | and newline, return, tab
abbrev pub specials : List Rune
specials = 92 ∷ 47 ∷ 58 ∷ 42 ∷ 63 ∷ 34 ∷ 60 ∷ 62 ∷ 124 ∷ 10 ∷ 13 ∷ 9 ∷ []

-- Category Cc.
unfoldable pub is_control : Rune → Bool
is_control r = if ltb r 32 then true else if leb 127 r then ltb r 160 else false

abbrev pub more_spaces : List Rune
more_spaces = 32 ∷ 133 ∷ 160 ∷ 5760 ∷ 8232 ∷ 8233 ∷ 8239 ∷ 8287 ∷ 12288 ∷ []

-- `unicode.IsSpace`: 9 to 13, the listed ones, and 8192 to 8202.
unfoldable pub is_space : Rune → Bool
unfolding contains_rune
is_space r =
    if leb 9 r
    then (if leb r 13
        then true
        else if leb 8192 r
        then (if leb r 8202 then true else contains_rune more_spaces r)
        else contains_rune more_spaces r)
    else false

abbrev pub underscore : Rune
underscore = 95

abbrev pub dot : Rune
dot = 46

unfoldable pub is_refused : Rune → Bool
unfolding contains_rune is_control
is_refused r = if contains_rune specials r then true else is_control r

unfoldable pub replace_rune : Rune → Rune
unfolding is_refused
replace_rune r = if is_refused r then underscore else r

unfoldable pub replace_runes : List Rune → List Rune
replace_runes [] = []
replace_runes (r ∷ rs) = replace_rune r ∷ replace_runes rs

unfoldable pub is_trimmed : Rune → Bool
unfolding is_space
is_trimmed r = if r == dot then true else if r == underscore then true else is_space r

trim_before : Rune → List Rune → List Rune
trim_before r [] = if is_trimmed r then [] else r ∷ []
trim_before r (x ∷ xs) = r ∷ x ∷ xs

-- `strings.TrimRightFunc`.
unfoldable pub trim_right : List Rune → List Rune
unfolding trim_before
trim_right [] = []
trim_right (r ∷ rs) = trim_before r (trim_right rs)

unfoldable pub normalize_pathname : List Rune → List Rune
unfolding replace_runes trim_right
normalize_pathname s = trim_right (replace_runes s)

-- What `UniquePath` calls: the join of paths, the numbered name of a stem and an extension, the
-- name with a random suffix, and the test for a taken path.
module _ (join : String → String → String) (numbered : String → ℕ → String)
    (random_name : String → String) (exists : String → Bool) where
  -- The numbered variants from `i` on, of which `left` may be tried.
  unfoldable pub unique_from : String → String → ℕ → ℕ → String
  unique_from base name zero i = join base (random_name name)
  unique_from base name (suc left) i =
      let rest = unique_from base name left (suc i) in
      if exists (join base (numbered name i)) then rest else join base (numbered name i)

  unfoldable pub unique_path : String → String → ℕ → String
  unfolding unique_from
  unique_path base name max_attempts =
      if exists (join base name) then unique_from base name max_attempts 1 else join base name
