-- ===== src/Templates.antt =====
-- core/tasks/ytdlp/output.go: the output templates in the flags that a user gives for yt-dlp. A string
-- is the list of its code points; the join of paths and the relative path are those of the library.
pub mod Reading
pub mod Rooted
mod Examples
use save_any_bot.Prelude.{
  ℕ, Bool, true, false, List, [], ◌∷◌, ◌++◌, ◌==◌, Option, none, some, if◌then◌else◌,
}

abbrev pub Text : Type 0
Text = List ℕ

-- -o
abbrev pub short_flag : Text
short_flag = 45 ∷ 111 ∷ []

-- --output
abbrev pub long_flag : Text
long_flag = 45 ∷ 45 ∷ 111 ∷ 117 ∷ 116 ∷ 112 ∷ 117 ∷ 116 ∷ []

-- --output=
abbrev pub long_prefix : Text
long_prefix = 45 ∷ 45 ∷ 111 ∷ 117 ∷ 116 ∷ 112 ∷ 117 ∷ 116 ∷ 61 ∷ []

-- Equality of texts.
unfoldable pub text_eq : Text → Text → Bool
text_eq [] [] = true
text_eq [] (y ∷ ys) = false
text_eq (x ∷ xs) [] = false
text_eq (x ∷ xs) (y ∷ ys) = let rest = text_eq xs ys in if x == y then rest else false

-- What is left behind a prefix, if the text has it.
unfoldable pub strip_prefix : Text → Text → Option Text
strip_prefix [] s = some s
strip_prefix (p ∷ ps) [] = none
strip_prefix (p ∷ ps) (x ∷ xs) = let rest = strip_prefix ps xs in if p == x then rest else none

unfoldable pub has_prefix : Text → Text → Bool
has_prefix [] s = true
has_prefix (p ∷ ps) [] = false
has_prefix (p ∷ ps) (x ∷ xs) = let rest = has_prefix ps xs in if p == x then rest else false

-- `strings.Cut` and `strings.Split` at one rune.
pub record Parts : Type 0 where
  pub before : Text
  pub after : Text

longer : ℕ → Option Parts → Option Parts
longer x none = none
longer x (some p) = some (record p { before = x ∷ p.before })

unfoldable pub cut : ℕ → Text → Option Parts
unfolding longer
cut c [] = none
cut c (x ∷ xs) =
    let rest = longer x (cut c xs) in
    if x == c then some (record { before = []; after = xs }) else rest

onto_first : ℕ → List Text → List Text
onto_first x [] = (x ∷ []) ∷ []
onto_first x (t ∷ ts) = (x ∷ t) ∷ ts

unfoldable pub split : ℕ → Text → List Text
unfolding onto_first
split c [] = [] ∷ []
split c (x ∷ xs) = let rest = split c xs in if x == c then [] ∷ rest else onto_first x rest

abbrev pub ytdlp_output_types : List Text
ytdlp_output_types =
    (97 ∷ 110 ∷ 110 ∷ 111 ∷ 116 ∷ 97 ∷ 116 ∷ 105 ∷ 111 ∷ 110 ∷ [])
    ∷ (99 ∷ 104 ∷ 97 ∷ 112 ∷ 116 ∷ 101 ∷ 114 ∷ [])
    ∷ (100 ∷ 101 ∷ 115 ∷ 99 ∷ 114 ∷ 105 ∷ 112 ∷ 116 ∷ 105 ∷ 111 ∷ 110 ∷ [])
    ∷ (105 ∷ 110 ∷ 102 ∷ 111 ∷ 106 ∷ 115 ∷ 111 ∷ 110 ∷ [])
    ∷ (108 ∷ 105 ∷ 110 ∷ 107 ∷ [])
    ∷ (112 ∷ 108 ∷ 95 ∷ 100 ∷ 101 ∷ 115 ∷ 99 ∷ 114 ∷ 105 ∷ 112 ∷ 116 ∷ 105 ∷ 111 ∷ 110 ∷ [])
    ∷ (112 ∷ 108 ∷ 95 ∷ 105 ∷ 110 ∷ 102 ∷ 111 ∷ 106 ∷ 115 ∷ 111 ∷ 110 ∷ [])
    ∷ (112 ∷ 108 ∷ 95 ∷ 116 ∷ 104 ∷ 117 ∷ 109 ∷ 98 ∷ 110 ∷ 97 ∷ 105 ∷ 108 ∷ [])
    ∷ (112 ∷ 108 ∷ 95 ∷ 118 ∷ 105 ∷ 100 ∷ 101 ∷ 111 ∷ [])
    ∷ (115 ∷ 117 ∷ 98 ∷ 116 ∷ 105 ∷ 116 ∷ 108 ∷ 101 ∷ [])
    ∷ (116 ∷ 104 ∷ 117 ∷ 109 ∷ 98 ∷ 110 ∷ 97 ∷ 105 ∷ 108 ∷ [])
    ∷ []

is_known : Text → List Text → Bool
unfolding text_eq
is_known k [] = false
is_known k (t ∷ ts) = let rest = is_known k ts in if text_eq k t then true else rest

unfoldable pub all_known : List Text → Bool
unfolding is_known
all_known [] = true
all_known (k ∷ ks) =
    let rest = all_known ks in if is_known k ytdlp_output_types then rest else false

-- The prefix with its colon, and the rest.
cut_prefix : Text → Option Parts → Parts
unfolding all_known split
cut_prefix template none = record { before = []; after = template }
cut_prefix template (some p) =
    if all_known (split 43 p.before)
    then record { before = p.before ++ 58 ∷ []; after = p.after }
    else record { before = []; after = template }

unfoldable pub split_type_prefix : Text → Parts
unfolding cut_prefix cut
split_type_prefix template = cut_prefix template (cut 58 template)

pub data TemplateError : Type 0 where
  requires_template : Text → TemplateError
  empty_template : TemplateError
  no_relative_path escapes : Text → TemplateError

pub data Resolved : Type 0 where
  resolved : Text → Resolved
  rejected : TemplateError → Resolved

pub data Rewritten : Type 0 where
  rewritten : List Text → Rewritten
  refused : TemplateError → Rewritten

-- The relative paths `.` and `..`, and those that begin with `../`.
unfoldable pub leaves : Text → Bool
unfolding text_eq has_prefix
leaves rel =
    if text_eq rel (46 ∷ [])
    then true
    else if text_eq rel (46 ∷ 46 ∷ [])
    then true
    else has_prefix (46 ∷ 46 ∷ 47 ∷ []) rel

-- What a flag is for the loop.
pub data Kind : Type 0 where
  separate plain : Kind
  long_with short_with : Text → Kind

short_kind : Option Text → Kind
short_kind none = plain
short_kind (some t) = short_with t

long_kind : Text → Option Text → Kind
unfolding short_kind strip_prefix
long_kind flag none = short_kind (strip_prefix short_flag flag)
long_kind flag (some t) = long_with t

unfoldable pub classify : Text → Kind
unfolding text_eq strip_prefix long_kind
classify flag =
    if text_eq flag short_flag
    then separate
    else if text_eq flag long_flag
    then separate
    else long_kind flag (strip_prefix long_prefix flag)

prepend : List Text → Rewritten → Rewritten
prepend xs (rewritten ys) = rewritten (xs ++ ys)
prepend xs (refused e) = refused e

unfoldable pub append_template : (Text → List Text) → Resolved → Rewritten → Rewritten
unfolding prepend
append_template wrap (resolved t) rest = prepend (wrap t) rest
append_template wrap (rejected e) rest = refused e

module _ (join : Text → Text → Text) (relative : Text → Text → Option Text) (dir : Text) where
  check_relative : Text → Parts → Option Text → Resolved
  unfolding leaves
  check_relative template p none = rejected (no_relative_path template)
  check_relative template p (some rel) =
      if leaves rel then rejected (escapes template) else resolved (p.before ++ join dir p.after)

  resolve_parts : Text → Parts → Resolved
  unfolding check_relative
  resolve_parts template p = check_relative template p (relative dir (join dir p.after))

  unfoldable pub output_template_path : Text → Resolved
  unfolding resolve_parts split_type_prefix
  output_template_path [] = rejected empty_template
  output_template_path (x ∷ xs) = resolve_parts (x ∷ xs) (split_type_prefix (x ∷ xs))

  after_kind : Text → Kind → (Option Text → Rewritten) → Rewritten
  unfolding output_template_path append_template prepend
  after_kind flag separate next = next (some flag)
  after_kind flag (long_with t) next =
      append_template (λ p. (long_prefix ++ p) ∷ []) (output_template_path t) (next none)
  after_kind flag (short_with t) next =
      append_template (λ p. (short_flag ++ p) ∷ []) (output_template_path t) (next none)
  after_kind flag plain next = prepend (flag ∷ []) (next none)

  -- The loop; the flag that still waits for its template is given.
  unfoldable pub rewrite_from : Option Text → List Text → Rewritten
  unfolding after_kind classify
  rewrite_from none [] = rewritten []
  rewrite_from (some flag) [] = refused (requires_template flag)
  rewrite_from (some flag) (t ∷ ts) =
      let rest = rewrite_from none ts in
      if has_prefix (45 ∷ []) t
      then refused (requires_template flag)
      else append_template (λ p. flag ∷ p ∷ []) (output_template_path t) rest
  rewrite_from none (f ∷ fs) = after_kind f (classify f) (λ pending. rewrite_from pending fs)

  unfoldable pub rewrite_output_templates : List Text → Rewritten
  unfolding rewrite_from
  rewrite_output_templates flags = rewrite_from none flags
