-- ===== src/Templates/Reading.antt =====
-- The output templates in flags for yt-dlp, and paths below a directory, told without the code of
-- core/tasks/ytdlp/output.go.
use save_any_bot.Prelude.{
  ◌≡◌, ◌≢◌, refl, ap, true, false, List, [], ◌∷◌, ◌++◌, Option, none, some, arith, Bool-cases, inl,
  inr, ◌⊎◌, ◌∙◌,
}
use save_any_bot.Templates.{
  Text, short_flag, long_flag, long_prefix, text_eq, strip_prefix, has_prefix, leaves, Kind,
  separate, plain, long_with, short_with, classify, short_kind, long_kind, is_known, all_known,
  ytdlp_output_types,
}

-- The templates that yt-dlp takes from flags written -o T, --output T, -oT and --output=T.
pub data Takes : List Text → List Text → Type 0 where
  no_flags : Takes [] []
  last_flag : (f : Text) → (f ≡ short_flag) ⊎ (f ≡ long_flag) → Takes (f ∷ []) []
  next_flag :
      (f t : Text) (fs ts : List Text)
      → (f ≡ short_flag) ⊎ (f ≡ long_flag)
      → Takes fs ts
      → Takes (f ∷ t ∷ fs) (t ∷ ts)
  joined_long :
      (f t : Text) (fs ts : List Text)
      → f ≡ long_prefix ++ t
      → Takes fs ts
      → Takes (f ∷ fs) (t ∷ ts)
  joined_short :
      (f t : Text) (fs ts : List Text)
      → f ≡ short_flag ++ t
      → t ≢ []
      → Takes fs ts
      → Takes (f ∷ fs) (t ∷ ts)
  other_flag :
      (f : Text) (fs ts : List Text)
      → f ≢ long_flag
      → ((t : Text) → f ≢ long_prefix ++ t)
      → ((t : Text) → f ≢ short_flag ++ t)
      → Takes fs ts
      → Takes (f ∷ fs) ts

-- A relative path that stays below: not `.`, not `..`, and not `../` with more.
pub record Stays (rel : Text) : Type 0 where
  pub not_same : rel ≢ 46 ∷ []
  pub not_parent : rel ≢ 46 ∷ 46 ∷ []
  pub not_above : (t : Text) → rel ≢ 46 ∷ 46 ∷ 47 ∷ t

abbrev pub IsAmong : Text → List Text → Type 0
IsAmong k [] = ⊥
IsAmong k (t ∷ ts) = (k ≡ t) ⊎ IsAmong k ts

pub text_eq-eq : (a b : Text) → text_eq a b ≡ true → a ≡ b
unfolding text_eq
text_eq-eq [] [] h = refl
text_eq-eq [] (y ∷ ys) h = ground (arith, h)
text_eq-eq (x ∷ xs) [] h = ground (arith, h)
text_eq-eq (x ∷ xs) (y ∷ ys) h = ground (arith, h, text_eq-eq xs ys)

text_eq_refl : (a : Text) → text_eq a a ≡ true
unfolding text_eq
text_eq_refl [] = refl
text_eq_refl (x ∷ xs) = ground (arith, text_eq_refl xs)

text_eq-ne : (a b : Text) → text_eq a b ≡ false → a ≢ b
text_eq-ne a b h e = absurd (cc (h, text_eq_refl b, ap (λ x. text_eq x b) e))

strip_prefix-eq : (p s t : Text) → strip_prefix p s ≡ some t → s ≡ p ++ t
unfolding strip_prefix
strip_prefix-eq [] s t h = ground (arith, h)
strip_prefix-eq (c ∷ cs) [] t h = ground (arith, h)
strip_prefix-eq (c ∷ cs) (x ∷ xs) t h = ground (arith, h, strip_prefix-eq cs xs t)

strip_prefix-append : (p t : Text) → strip_prefix p (p ++ t) ≡ some t
unfolding strip_prefix
strip_prefix-append [] t = refl
strip_prefix-append (c ∷ cs) t = ground (arith, strip_prefix-append cs t)

strip_prefix-ne : (p s t : Text) → strip_prefix p s ≡ none → s ≢ p ++ t
strip_prefix-ne p s t h e = absurd (cc (h, ap (strip_prefix p) e, strip_prefix-append p t))

has_prefix-append : (p t : Text) → has_prefix p (p ++ t) ≡ true
unfolding has_prefix
has_prefix-append [] t = refl
has_prefix-append (c ∷ cs) t = ground (arith, has_prefix-append cs t)

pub leaves-Stays : (rel : Text) → leaves rel ≡ false → Stays rel
unfolding leaves
leaves-Stays rel h = record {
  not_same =
      λ e. absurd (ground (arith, h, e, ap (λ x. text_eq x (46 ∷ [])) e, text_eq_refl (46 ∷ [])));
  not_parent = λ e.
      absurd (ground (arith, h, ap (λ x. text_eq x (46 ∷ 46 ∷ [])) e, text_eq_refl (46 ∷ 46 ∷ [])));
  not_above = λ t e. absurd (
      ground
        (arith, h, ap (has_prefix (46 ∷ 46 ∷ 47 ∷ [])) e, has_prefix-append (46 ∷ 46 ∷ 47 ∷ []) t));
}

is_known-IsAmong : (k : Text) (ts : List Text) → is_known k ts ≡ true → IsAmong k ts
unfolding is_known
is_known-IsAmong k [] h = ground (arith, h)
is_known-IsAmong k (t ∷ ts) h = elim (Bool-cases (text_eq k t)) [
  | inl e ↦ inl (text_eq-eq k t e)
  | inr e ↦ inr (is_known-IsAmong k ts (ground (arith, h, e)))
]

abbrev pub AreKnown : List Text → Type 0
AreKnown [] = Unit
AreKnown (k ∷ ks) = IsAmong k ytdlp_output_types × AreKnown ks

pub all_known-AreKnown : (ks : List Text) → all_known ks ≡ true → AreKnown ks
unfolding all_known
all_known-AreKnown [] h = tt
all_known-AreKnown (k ∷ ks) h = (
  is_known-IsAmong k ytdlp_output_types (ground (arith, h)),
  all_known-AreKnown ks (ground (arith, h)),
)

-- What the kind of a flag says of it.
pub data Reads (f : Text) : Kind → Type 0 where
  reads_separate : (f ≡ short_flag) ⊎ (f ≡ long_flag) → Reads f separate
  reads_long : (t : Text) → f ≡ long_prefix ++ t → Reads f (long_with t)
  reads_short : (t : Text) → f ≡ short_flag ++ t → t ≢ [] → Reads f (short_with t)
  reads_plain :
      f ≢ long_flag
      → ((t : Text) → f ≢ long_prefix ++ t)
      → ((t : Text) → f ≢ short_flag ++ t)
      → Reads f plain

pub classify-Reads : (f : Text) → Reads f (classify f)
unfolding classify
classify-Reads f = elim (Bool-cases (text_eq f short_flag)) [
  | inl e ↦ rw e (reads_separate (inl (text_eq-eq f short_flag e)))
  | inr e ↦ elim (Bool-cases (text_eq f long_flag)) [
    | inl g ↦ rw (e, g) (reads_separate (inr (text_eq-eq f long_flag g)))
    | inr g ↦ rw (e, g) (long (strip_prefix long_prefix f) refl e g)
  ]
]
  where
    short :
        (o : Option Text)
        → strip_prefix short_flag f ≡ o
        → text_eq f short_flag ≡ false
        → text_eq f long_flag ≡ false
        → strip_prefix long_prefix f ≡ none
        → Reads f (short_kind o)
    short none q e g n =
        unfold short_kind in
        reads_plain (text_eq-ne f long_flag g) (λ t. strip_prefix-ne long_prefix f t n)
          (λ t. strip_prefix-ne short_flag f t q)
    short (some t) q e g n =
        unfold short_kind in
        reads_short t (strip_prefix-eq short_flag f t q) (λ z.
          text_eq-ne f short_flag e
            (strip_prefix-eq short_flag f t q ∙ ap (λ x. short_flag ++ x) z))

    long :
        (o : Option Text)
        → strip_prefix long_prefix f ≡ o
        → text_eq f short_flag ≡ false
        → text_eq f long_flag ≡ false
        → Reads f (long_kind f o)
    long none q e g = unfold long_kind in short (strip_prefix short_flag f) refl e g q
    long (some t) q e g = unfold long_kind in reads_long t (strip_prefix-eq long_prefix f t q)
