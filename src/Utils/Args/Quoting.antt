-- ===== src/Utils/Args/Quoting.antt =====
-- A writer for the arguments that `ParseArgsRespectQuotes` reads.
use save_any_bot.Prelude.{
  ◌<◌, ◌≡◌, refl, ap, ◌∙◌, sym, true, false, List, [], ◌∷◌, ◌++◌, ◌==◌, ltb, length, if◌then◌else◌,
  All, arith, append_assoc, append-nil, Bool-cases, inl, inr,
}
use save_any_bot.Utils.Args.{
  Rune, quote, backslash, space, Scan, write_rune, write_escaped, flush, scan_blank, scan_rune,
  scan, start_scan, parse_args_respect_quotes,
}

-- Quotes and backslashes are escaped.
unfoldable pub escape : List Rune → List Rune
escape [] = []
escape (r ∷ rs) =
    let rest = escape rs in
    if r == quote
    then backslash ∷ r ∷ rest
    else if r == backslash
    then backslash ∷ r ∷ rest
    else r ∷ rest

-- An argument in quotes, and a blank after it.
unfoldable pub quote_arg : List Rune → List Rune
unfolding escape
quote_arg a = quote ∷ escape a ++ quote ∷ space ∷ []

unfoldable pub quote_args : List (List Rune) → List Rune
unfolding quote_arg
quote_args [] = []
quote_args (a ∷ others) = quote_arg a ++ quote_args others

abbrev in_arg : List (List Rune) → List Rune → Scan
in_arg args current = record { args = args; current = current; in_quotes = true; escaped = false }

abbrev between : List (List Rune) → Scan
between args = record { args = args; current = []; in_quotes = false; escaped = false }

scan-append : (s : Scan) (xs ys : List Rune) → scan s (xs ++ ys) ≡ scan (scan s xs) ys
unfolding scan
scan-append s [] ys = refl
scan-append s (x ∷ xs) ys = scan-append (scan_rune s x) xs ys

scan-escape :
    (a : List Rune) (args : List (List Rune)) (current : List Rune)
    → scan (in_arg args current) (escape a) ≡ in_arg args (current ++ a)
unfolding scan escape scan_rune write_rune write_escaped scan_blank
scan-escape [] args current = ap (in_arg args) (sym (append-nil current))
scan-escape (r ∷ rs) args current =
    ground (arith, scan-escape rs args (current ++ r ∷ []), append_assoc current (r ∷ []) rs)

scan-quote_arg :
    (a : List Rune) (args : List (List Rune))
    → 0 < length a
    → scan (between args) (quote_arg a) ≡ between (args ++ a ∷ [])
unfolding scan quote_arg scan_rune scan_blank flush
scan-quote_arg a args h =
    scan-append (in_arg args []) (escape a) (quote ∷ space ∷ [])
    ∙ ap (λ s. scan s (quote ∷ space ∷ [])) (scan-escape a args [])
    ∙ ground (arith, h)

scan-quote_args :
    (words args : List (List Rune))
    → All (λ a. 0 < length a) words
    → scan (between args) (quote_args words) ≡ between (args ++ words)
unfolding scan quote_args
scan-quote_args [] args h = ap between (sym (append-nil args))
scan-quote_args (a ∷ others) args h =
    scan-append (between args) (quote_arg a) (quote_args others)
    ∙ ap (λ s. scan s (quote_args others)) (scan-quote_arg a args h.0)
    ∙ scan-quote_args others (args ++ a ∷ []) h.1
    ∙ ap between (append_assoc args (a ∷ []) others)

-- Whatever arguments are written, each in quotes with its quotes and backslashes escaped and with a
-- blank after it, are read back unchanged and in their order, blanks and tabs in them included, if
-- none of them is empty.
pub parse_args_respect_quotes-quote_args :
    (words : List (List Rune))
    → All (λ a. 0 < length a) words
    → parse_args_respect_quotes (quote_args words) ≡ words
unfolding parse_args_respect_quotes flush
parse_args_respect_quotes-quote_args words h = ap (λ s. (flush s).args) (scan-quote_args words [] h)

abbrev pub NonEmpty : List Rune → Type 0
NonEmpty a = 0 < length a

All-snoc :
    (xs : List (List Rune)) (x : List Rune)
    → All NonEmpty xs
    → NonEmpty x
    → All NonEmpty (xs ++ x ∷ [])
All-snoc [] x h p = (p, tt)
All-snoc (y ∷ ys) x h p = (h.0, All-snoc ys x h.1 p)

flush-NonEmpty : (s : Scan) → All NonEmpty s.args → All NonEmpty (flush s).args
unfolding flush
flush-NonEmpty s h = elim (Bool-cases (ltb 0 (length s.current))) [
  | inl e ↦ rw (e, flush) (All-snoc s.args s.current h (ground (arith, e)))
  | inr e ↦ rw (e, flush) h
]

scan_rune-NonEmpty : (s : Scan) (r : Rune) → All NonEmpty s.args → All NonEmpty (scan_rune s r).args
unfolding scan_rune write_rune write_escaped scan_blank
scan_rune-NonEmpty s r h = ground (arith, h, flush-NonEmpty s h)

scan-NonEmpty : (s : Scan) (rs : List Rune) → All NonEmpty s.args → All NonEmpty (scan s rs).args
unfolding scan
scan-NonEmpty s [] h = h
scan-NonEmpty s (r ∷ rs) h = scan-NonEmpty (scan_rune s r) rs (scan_rune-NonEmpty s r h)

-- No input, however its quotes and backslashes stand, has an empty argument.
pub parse_args_respect_quotes-NonEmpty :
    (input : List Rune) → All NonEmpty (parse_args_respect_quotes input)
unfolding parse_args_respect_quotes
parse_args_respect_quotes-NonEmpty input =
    flush-NonEmpty (scan start_scan input) (scan-NonEmpty start_scan input tt)
