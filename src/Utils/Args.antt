-- ===== src/Utils/Args.antt =====
-- `ParseArgsRespectQuotes` of common/utils/strutil/string.go.
pub mod Quoting
use save_any_bot.Prelude.{
  ℕ, ◌<◌, Bool, true, false, List, [], ◌∷◌, ◌++◌, ◌==◌, ltb, length, if◌then◌else◌,
}

abbrev pub Rune : Type 0
Rune = ℕ

abbrev pub quote : Rune
quote = 34

abbrev pub backslash : Rune
backslash = 92

abbrev pub space : Rune
space = 32

abbrev pub tab : Rune
tab = 9

-- The variables of the loop.
pub record Scan : Type 0 where
  pub args : List (List Rune)
  pub current : List Rune
  pub in_quotes : Bool
  pub escaped : Bool

unfoldable pub write_rune : Scan → Rune → Scan
write_rune s r = record s { current = s.current ++ r ∷ [] }

-- What is written after a backslash; the test is whether the rune needs none.
unfoldable pub write_escaped : Scan → Rune → Scan
unfolding write_rune
write_escaped s r =
    if r == quote
    then write_rune s r
    else if r == backslash
    then write_rune s r
    else write_rune (write_rune s backslash) r

-- An argument ends here, if it has any rune.
unfoldable pub flush : Scan → Scan
flush s =
    if ltb 0 (length s.current)
    then record s { args = s.args ++ s.current ∷ []; current = [] }
    else s

unfoldable pub scan_blank : Scan → Rune → Scan
unfolding write_rune flush
scan_blank s r = if s.in_quotes then write_rune s r else flush s

unfoldable pub scan_rune : Scan → Rune → Scan
unfolding write_rune write_escaped scan_blank
scan_rune s r =
    if s.escaped
    then record (write_escaped s r) { escaped = false }
    else if r == backslash
    then record s { escaped = true }
    else if r == quote
    then record s { in_quotes = if s.in_quotes then false else true }
    else if r == space
    then scan_blank s r
    else if r == tab
    then scan_blank s r
    else write_rune s r

unfoldable pub scan : Scan → List Rune → Scan
scan s [] = s
scan s (r ∷ rs) = scan (scan_rune s r) rs

abbrev pub start_scan : Scan
start_scan = record { args = []; current = []; in_quotes = false; escaped = false }

unfoldable pub parse_args_respect_quotes : List Rune → List (List Rune)
unfolding scan flush
parse_args_respect_quotes input = (flush (scan start_scan input)).args
