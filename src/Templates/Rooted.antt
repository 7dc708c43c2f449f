-- ===== src/Templates/Rooted.antt =====
-- Where the output goes that yt-dlp writes for the flags of core/tasks/ytdlp/output.go.
use save_any_bot.Prelude.{
  zero, ◌≤◌, ℕ, suc, ◌+◌, ◌≡◌, ◌≢◌, refl, ap, sym, Bool, true, false, List, [], ◌∷◌, ◌++◌, Option,
  none, some, length, All, arith, Bool-cases, inl, inr, ◌⊎◌, subst,
}
use save_any_bot.Templates.{
  Text, short_flag, long_prefix, has_prefix, Parts, cut, split, split_type_prefix, Resolved,
  resolved, rejected, Rewritten, rewritten, refused, leaves, Kind, separate, plain, long_with,
  short_with, classify, prepend, append_template, check_relative, resolve_parts,
  output_template_path, after_kind, rewrite_from, rewrite_output_templates, cut_prefix, all_known,
}
use save_any_bot.Templates.Reading.{
  Takes, no_flags, last_flag, next_flag, joined_long, joined_short, other_flag, Stays, leaves-Stays,
  AreKnown, all_known-AreKnown, Reads, reads_separate, reads_long, reads_short, reads_plain,
  classify-Reads,
}

-- The templates that yt-dlp takes from its flags; a flag alone takes the next one for its template.
unfoldable pub templates_of : Kind → (Bool → List Text) → List Text
templates_of separate next = next true
templates_of plain next = next false
templates_of (long_with t) next = t ∷ next false
templates_of (short_with t) next = t ∷ next false

unfoldable pub output_templates : Bool → List Text → List Text
unfolding templates_of classify
output_templates waiting [] = []
output_templates true (t ∷ ts) = t ∷ output_templates false ts
output_templates false (f ∷ fs) = templates_of (classify f) (λ waiting. output_templates waiting fs)

-- After a flag of a kind.
templates_of-Takes :
    (f : Text) (fs : List Text) (k : Kind)
    → Reads f k
    → Takes fs (output_templates false fs)
    → ((t : Text) (gs : List Text) → fs ≡ t ∷ gs → Takes gs (output_templates false gs))
    → Takes (f ∷ fs) (templates_of k (λ waiting. output_templates waiting fs))
unfolding templates_of output_templates
templates_of-Takes f [] _ (reads_separate a) h g = last_flag f a
templates_of-Takes f (t ∷ gs) _ (reads_separate a) h g = next_flag f t gs _ a (g t gs refl)
templates_of-Takes f fs _ (reads_long t e) h g = joined_long f t fs _ e h
templates_of-Takes f fs _ (reads_short t e n) h g = joined_short f t fs _ e n h
templates_of-Takes f fs _ (reads_plain a b c) h g = other_flag f fs _ a b c h

output_templates_bounded :
    (n : ℕ) (fs : List Text) → length fs ≤ n → Takes fs (output_templates false fs)
unfolding output_templates
output_templates_bounded n [] h = no_flags
output_templates_bounded zero (f ∷ fs) h = absurd (omega arith)
output_templates_bounded (suc n) (f ∷ fs) h =
    templates_of-Takes f fs (classify f) (classify-Reads f)
      (output_templates_bounded n fs (omega arith))
      λ t gs e. output_templates_bounded n gs (omega (arith, ap length e))

output_templates-Takes : (fs : List Text) → Takes fs (output_templates false fs)
output_templates-Takes fs = output_templates_bounded (length fs) fs (omega arith)

module _ (join : Text → Text → Text) (relative : Text → Text → Option Text) (dir : Text) where
  -- A path in the directory, or such a path behind a prefix of output types.
  abbrev pub Rooted : Text → Type 0
  Rooted t =
      (before : Text) × (below : Text) × (rel : Text) × (t ≡ before ++ join dir below)
      × (relative dir (join dir below) ≡ some rel)
      × Stays rel
      × ((before ≡ []) ⊎ ((key : Text) × (before ≡ key ++ 58 ∷ []) × AreKnown (split 43 key)))

  abbrev IsRooted : Resolved → Type 0
  IsRooted (resolved t) = Rooted t
  IsRooted (rejected e) = Unit

  -- What the loop makes of `n` flags.
  abbrev IsSound : ℕ → Rewritten → Type 0
  IsSound n (rewritten rs) = All Rooted (output_templates false rs) × (length rs ≡ n)
  IsSound n (refused e) = Unit

  abbrev Typed : Text → Type 0
  Typed before =
      (before ≡ []) ⊎ ((key : Text) × (before ≡ key ++ 58 ∷ []) × AreKnown (split 43 key))

  cut_prefix-Typed : (t : Text) (o : Option Parts) → Typed (cut_prefix t o).before
  unfolding cut_prefix
  cut_prefix-Typed t none = inl refl
  cut_prefix-Typed t (some p) = elim (Bool-cases (all_known (split 43 p.before))) [
    | inl e ↦ rw (e, cut_prefix) (inr (p.before, refl, all_known-AreKnown (split 43 p.before) e))
    | inr e ↦ rw (e, cut_prefix) (inl refl)
  ]

  check_relative-IsRooted :
      (t : Text) (p : Parts) (o : Option Text)
      → relative dir (join dir p.after) ≡ o
      → Typed p.before
      → IsRooted (check_relative join relative dir t p o)
  unfolding check_relative
  check_relative-IsRooted t p none e h = tt
  check_relative-IsRooted t p (some rel) e h = elim (Bool-cases (leaves rel)) [
    | inl c ↦ rw (c, check_relative) tt
    | inr c ↦ rw (c, check_relative) (p.before, p.after, rel, refl, e, leaves-Stays rel c, h)
  ]

  output_template_path-IsRooted : (t : Text) → IsRooted (output_template_path join relative dir t)
  unfolding output_template_path resolve_parts split_type_prefix
  output_template_path-IsRooted [] = tt
  output_template_path-IsRooted (x ∷ xs) =
      let p = cut_prefix (x ∷ xs) (cut 58 (x ∷ xs)) in
      check_relative-IsRooted (x ∷ xs) p (relative dir (join dir p.after)) refl
        (cut_prefix-Typed (x ∷ xs) (cut 58 (x ∷ xs)))

  prepend-IsSound :
      (flag : Text) (n : ℕ) (r : Rewritten)
      → classify flag ≡ plain
      → IsSound n r
      → IsSound (suc n) (prepend (flag ∷ []) r)
  unfolding prepend output_templates templates_of
  prepend-IsSound flag n (refused e) h x = tt
  prepend-IsSound flag n (rewritten rs) h x = rw h (x.0, ap suc x.1)

  after_flag :
      (flag : Text) (n : ℕ) (res : Resolved) (r : Rewritten)
      → classify flag ≡ separate
      → IsRooted res
      → IsSound n r
      → IsSound (suc (suc n)) (append_template (λ p. flag ∷ p ∷ []) res r)
  unfolding append_template prepend output_templates templates_of
  after_flag flag n (rejected e) r h x y = tt
  after_flag flag n (resolved t) (refused e) h x y = tt
  after_flag flag n (resolved t) (rewritten rs) h x y = rw h ((x, y.0), ap (λ i. suc (suc i)) y.1)

  after_long :
      (n : ℕ) (res : Resolved) (r : Rewritten)
      → IsRooted res
      → IsSound n r
      → IsSound (suc n) (append_template (λ p. (long_prefix ++ p) ∷ []) res r)
  unfolding append_template prepend output_templates templates_of
  after_long n (rejected e) r x y = tt
  after_long n (resolved t) (refused e) x y = tt
  after_long n (resolved t) (rewritten rs) x y = ((x, y.0), ap suc y.1)

  after_short :
      (n : ℕ) (res : Resolved) (r : Rewritten)
      → ((a b : Text) → join a b ≢ [])
      → IsRooted res
      → IsSound n r
      → IsSound (suc n) (append_template (λ p. (short_flag ++ p) ∷ []) res r)
  unfolding append_template prepend output_templates templates_of
  after_short n (rejected e) r j x y = tt
  after_short n (resolved t) (refused e) j x y = tt
  after_short n (resolved []) (rewritten rs) j x y = absurd (not_empty x.0 x.1 x.3)
    where
      not_empty : (before below : Text) → ¬ ([] ≡ before ++ join dir below)
      not_empty [] below e = j dir below (sym e)
      not_empty (b ∷ bs) below e = ground arith
  after_short n (resolved (c ∷ cs)) (rewritten rs) j x y = ((x, y.0), ap suc y.1)

  IsSound-cast : (m n : ℕ) (r : Rewritten) → m ≡ n → IsSound m r → IsSound n r
  IsSound-cast m n r e x = subst (λ i. IsSound i r) e x

  abbrev waiting_flags : Option Text → ℕ
  waiting_flags none = 0
  waiting_flags (some f) = 1

  abbrev IsWaiting : Option Text → Type 0
  IsWaiting none = Unit
  IsWaiting (some flag) = classify flag ≡ separate

  after_kind-IsSound :
      (flag : Text) (k : Kind) (n : ℕ) (next : Option Text → Rewritten)
      → ((a b : Text) → join a b ≢ [])
      → classify flag ≡ k
      → ((o : Option Text) → IsWaiting o → IsSound (waiting_flags o + n) (next o))
      → IsSound (1 + n) (after_kind join relative dir flag k next)
  unfolding after_kind
  after_kind-IsSound flag separate n next j h x = x (some flag) h
  after_kind-IsSound flag (long_with t) n next j h x =
      IsSound-cast (suc n) (1 + n) _ (omega arith) (
        after_long n (output_template_path join relative dir t) (next none)
          (output_template_path-IsRooted t)
          (IsSound-cast (0 + n) n (next none) (omega arith) (x none tt)))
  after_kind-IsSound flag (short_with t) n next j h x =
      IsSound-cast (suc n) (1 + n) _ (omega arith) (
        after_short n (output_template_path join relative dir t) (next none) j
          (output_template_path-IsRooted t)
          (IsSound-cast (0 + n) n (next none) (omega arith) (x none tt)))
  after_kind-IsSound flag plain n next j h x = IsSound-cast (suc n) (1 + n) _ (omega arith) (
      prepend-IsSound flag n (next none) h
        (IsSound-cast (0 + n) n (next none) (omega arith) (x none tt)))

  rewrite_from-IsSound :
      ((a b : Text) → join a b ≢ [])
      → (o : Option Text) (fs : List Text) → IsWaiting o
      → IsSound (waiting_flags o + length fs) (rewrite_from join relative dir o fs)
  unfolding rewrite_from output_templates
  rewrite_from-IsSound j none [] w = (tt, refl)
  rewrite_from-IsSound j (some flag) [] w = tt
  rewrite_from-IsSound j (some flag) (t ∷ ts) w = elim (Bool-cases (has_prefix (45 ∷ []) t)) [
    | inl e ↦ rw (e, rewrite_from) tt
    | inr e ↦
        rw (e, rewrite_from)
          (after_both (output_template_path join relative dir t)
            (rewrite_from join relative dir none ts) (output_template_path-IsRooted t)
            (rewrite_from-IsSound j none ts tt))
  ]
    where
      after_both :
          (res : Resolved) (r : Rewritten)
          → IsRooted res
          → IsSound (0 + length ts) r
          → IsSound (1 + length (t ∷ ts)) (append_template (λ p. flag ∷ p ∷ []) res r)
      after_both res r x y =
          IsSound-cast (suc (suc (length ts))) (1 + length (t ∷ ts))
            (append_template (λ p. flag ∷ p ∷ []) res r) (omega arith)
            (after_flag flag (length ts) res r w x
              (IsSound-cast (0 + length ts) (length ts) r (omega arith) y))
  rewrite_from-IsSound j none (f ∷ fs) w =
      IsSound-cast (1 + length fs) (0 + length (f ∷ fs))
        (after_kind join relative dir f (classify f)
          (λ pending. rewrite_from join relative dir pending fs))
        (omega arith)
        (after_kind-IsSound f (classify f) (length fs)
          (λ pending. rewrite_from join relative dir pending fs) j refl
          (λ o h. rewrite_from-IsSound j o fs h))

  -- If the flags are accepted, then they are as many as before, and every output template that the new
  -- ones give, written -o T, --output T, -oT or --output=T, is a path below the download directory, behind
  -- nothing or behind a prefix of output types that yt-dlp knows; this holds if the join of paths is never
  -- empty. Other ways to write such a flag are not looked at.
  pub rewrite_output_templates-Rooted :
      ((a b : Text) → join a b ≢ [])
      → (flags rs : List Text) → rewrite_output_templates join relative dir flags ≡ rewritten rs
      → ((ts : List Text) × Takes rs ts × All Rooted ts) × (length rs ≡ length flags)
  unfolding rewrite_output_templates
  rewrite_output_templates-Rooted j flags rs h =
      let x = subst (IsSound (0 + length flags)) h (rewrite_from-IsSound j none flags tt) in
      ((output_templates false rs, output_templates-Takes rs, x.0), ground (arith, x.1))
