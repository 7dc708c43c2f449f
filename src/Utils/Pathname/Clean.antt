-- ===== src/Utils/Pathname/Clean.antt =====
-- Names that `NormalizePathname` of common/utils/fsutil/fs.go has been applied to.
use save_any_bot.Prelude.{
  ◌≡◌, refl, ap, ◌∙◌, false, List, [], ◌∷◌, All, arith, Bool-cases, inl, inr,
}
use save_any_bot.Utils.Pathname.{
  Rune, is_refused, replace_rune, replace_runes, is_trimmed, trim_before, trim_right,
  normalize_pathname, contains_rune, is_control,
}

abbrev pub Accepted : Rune → Type 0
Accepted r = is_refused r ≡ false

-- The last rune of a name is not one of those that are trimmed.
unfoldable pub EndsWell : List Rune → Type 0
EndsWell [] = Unit
EndsWell (r ∷ []) = is_trimmed r ≡ false
EndsWell (r ∷ x ∷ xs) = EndsWell (x ∷ xs)

replace_rune-Accepted : (r : Rune) → Accepted (replace_rune r)
unfolding replace_rune
replace_rune-Accepted r = elim (Bool-cases (is_refused r)) [
  | inl e ↦ rw (e, replace_rune) (unfold is_refused contains_rune is_control in refl)
  | inr e ↦ rw (e, replace_rune) e
]

replace_rune-same : (r : Rune) → Accepted r → replace_rune r ≡ r
unfolding replace_rune
replace_rune-same r h = rw (h, replace_rune) refl

replace_runes-Accepted : (rs : List Rune) → All Accepted (replace_runes rs)
unfolding replace_runes
replace_runes-Accepted [] = tt
replace_runes-Accepted (r ∷ rs) = (replace_rune-Accepted r, replace_runes-Accepted rs)

replace_runes-same : (rs : List Rune) → All Accepted rs → replace_runes rs ≡ rs
unfolding replace_runes
replace_runes-same [] h = refl
replace_runes-same (r ∷ rs) h = ground (arith, replace_rune-same r h.0, replace_runes-same rs h.1)

trim_before-Accepted :
    (r : Rune) (rs : List Rune) → Accepted r → All Accepted rs → All Accepted (trim_before r rs)
unfolding trim_before
trim_before-Accepted r [] p h = elim (Bool-cases (is_trimmed r)) [
  | inl e ↦ rw (e, trim_before) tt
  | inr e ↦ rw (e, trim_before) (p, tt)
]
trim_before-Accepted r (x ∷ xs) p h = (p, h)

trim_right-Accepted : (rs : List Rune) → All Accepted rs → All Accepted (trim_right rs)
unfolding trim_right
trim_right-Accepted [] h = tt
trim_right-Accepted (r ∷ rs) h =
    trim_before-Accepted r (trim_right rs) h.0 (trim_right-Accepted rs h.1)

trim_before-EndsWell : (r : Rune) (rs : List Rune) → EndsWell rs → EndsWell (trim_before r rs)
unfolding trim_before EndsWell
trim_before-EndsWell r [] h = elim (Bool-cases (is_trimmed r)) [
  | inl e ↦ rw (e, trim_before) tt
  | inr e ↦ rw (e, trim_before) e
]
trim_before-EndsWell r (x ∷ xs) h = h

trim_right-EndsWell : (rs : List Rune) → EndsWell (trim_right rs)
unfolding trim_right EndsWell
trim_right-EndsWell [] = tt
trim_right-EndsWell (r ∷ rs) = trim_before-EndsWell r (trim_right rs) (trim_right-EndsWell rs)

trim_right-same : (rs : List Rune) → EndsWell rs → trim_right rs ≡ rs
unfolding trim_right EndsWell trim_before
trim_right-same [] h = refl
trim_right-same (r ∷ []) h = rw (h, trim_before) refl
trim_right-same (r ∷ x ∷ xs) h = ap (trim_before r) (trim_right-same (x ∷ xs) h)

normalize_pathname-kept : (s : List Rune) → All Accepted s → EndsWell s → normalize_pathname s ≡ s
unfolding normalize_pathname
normalize_pathname-kept s a b = ap trim_right (replace_runes-same s a) ∙ trim_right-same s b

normalize_pathname-Accepted : (s : List Rune) → All Accepted (normalize_pathname s)
unfolding normalize_pathname
normalize_pathname-Accepted s = trim_right-Accepted (replace_runes s) (replace_runes-Accepted s)

-- The name has no rune that is refused in a file's name and does not end in a dot, an underscore or
-- a space, and normalising it again changes nothing.
pub normalize_pathname-EndsWell :
    (s : List Rune)
    → All Accepted (normalize_pathname s)
      × EndsWell (normalize_pathname s)
      × (normalize_pathname (normalize_pathname s) ≡ normalize_pathname s)
normalize_pathname-EndsWell s =
    let b : EndsWell (normalize_pathname s) =
      unfold normalize_pathname in trim_right-EndsWell (replace_runes s) in
    (
      normalize_pathname-Accepted s,
      b,
      normalize_pathname-kept (normalize_pathname s) (normalize_pathname-Accepted s) b,
    )
