-- ===== src/Relay/Collect/Complete/Pages.antt =====
-- The pages of a history that is served newest first, and what a scan of one page sees.
use save_any_bot.Prelude.{
  ℕ, zero, suc, ◌<◌, ◌≡◌, refl, Bool, true, false, ◌||◌, List, [], ◌∷◌, ◌++◌, ltb, leb, ◌==◌,
  if◌then◌else◌, length, take, drop, All, arith, Bool-cases, inl, inr, ◌⊎◌,
}
use save_any_bot.Relay.Collect.{RelayMessage, is_seen}

module _ {ℓ} {M : Type ℓ} where
  -- The messages above the cursor.
  unfoldable pub above : ℕ → List (RelayMessage M) → List (RelayMessage M)
  above last [] = []
  above last (m ∷ ms) = let rest = above last ms in if ltb last m.id then m ∷ rest else rest

  -- The messages below an offset; the offset 0 stands for none.
  unfoldable pub below : ℕ → List (RelayMessage M) → List (RelayMessage M)
  below o [] = []
  below o (m ∷ ms) = let rest = below o ms in if o == 0 || ltb m.id o then m ∷ rest else rest

  -- Newest first, with proper IDs.
  abbrev pub Descends : List (RelayMessage M) → Type 0
  Descends [] = Unit
  Descends (m ∷ ms) = (0 < m.id) × All (λ x. x.id < m.id) ms × Descends ms

  unfoldable pub last_id : ℕ → List (RelayMessage M) → ℕ
  last_id d [] = d
  last_id d (m ∷ ms) = last_id m.id ms

  unfoldable pub any_old : ℕ → List (RelayMessage M) → Bool
  any_old last [] = false
  any_old last (m ∷ ms) = let rest = any_old last ms in if leb m.id last then true else rest

  abbrev pub Unseen : List (RelayMessage M) → RelayMessage M → Type 0
  Unseen ms m = is_seen m.id ms ≡ false

  pub above-append :
      (last : ℕ) (xs ys : List (RelayMessage M))
      → above last (xs ++ ys) ≡ above last xs ++ above last ys
  unfolding above
  above-append last [] ys = refl
  above-append last (x ∷ xs) ys = ground (arith, above-append last xs ys)

  pub below-below :
      (o o' : ℕ) (xs : List (RelayMessage M))
      → 0 < o'
      → (o ≡ 0) ⊎ (o' < o)
      → below o' (below o xs) ≡ below o' xs
  unfolding below
  below-below o o' [] p h = refl
  below-below o o' (x ∷ xs) p h = ground (arith, below-below o o' xs p h)

  below-All : (o : ℕ) (xs : List (RelayMessage M)) → All (λ x. x.id < o) xs → below o xs ≡ xs
  unfolding below
  below-All o [] h = refl
  below-All o (x ∷ xs) h = ground (arith, h.0, below-All o xs h.1)

  pub below-zero : (xs : List (RelayMessage M)) → below 0 xs ≡ xs
  unfolding below
  below-zero [] = refl
  below-zero (x ∷ xs) = ground (arith, below-zero xs)

  All-last_id :
      (b d : ℕ) (xs : List (RelayMessage M)) → d < b → All (λ x. x.id < b) xs → last_id d xs < b
  unfolding last_id
  All-last_id b d [] p h = p
  All-last_id b d (x ∷ xs) p h = All-last_id b x.id xs h.0 h.1

  All-take :
      (b n : ℕ) (xs : List (RelayMessage M))
      → All (λ x. x.id < b) xs
      → All (λ x. x.id < b) (take n xs)
  All-take b zero xs h = tt
  All-take b (suc n) [] h = tt
  All-take b (suc n) (x ∷ xs) h = (h.0, All-take b n xs h.1)

  All-drop :
      (b n : ℕ) (xs : List (RelayMessage M))
      → All (λ x. x.id < b) xs
      → All (λ x. x.id < b) (drop n xs)
  All-drop b zero xs h = h
  All-drop b (suc n) [] h = tt
  All-drop b (suc n) (x ∷ xs) h = All-drop b n xs h.1

  pub take-Descends : (n : ℕ) (xs : List (RelayMessage M)) → Descends xs → Descends (take n xs)
  take-Descends zero xs h = tt
  take-Descends (suc n) [] h = tt
  take-Descends (suc n) (x ∷ xs) h = (h.0, All-take x.id n xs h.1, take-Descends n xs h.2)

  pub drop-Descends : (n : ℕ) (xs : List (RelayMessage M)) → Descends xs → Descends (drop n xs)
  drop-Descends zero xs h = h
  drop-Descends (suc n) [] h = tt
  drop-Descends (suc n) (x ∷ xs) h = drop-Descends n xs h.2

  pub last_id_pos : (d : ℕ) (xs : List (RelayMessage M)) → 0 < d → Descends xs → 0 < last_id d xs
  unfolding last_id
  last_id_pos d [] p h = p
  last_id_pos d (x ∷ xs) p h = last_id_pos x.id xs h.0 h.2

  -- Behind a full page stands what is below its last ID.
  pub below-last_id :
      (n d : ℕ) (xs : List (RelayMessage M))
      → length (take (suc n) xs) ≡ suc n
      → Descends xs
      → below (last_id d (take (suc n) xs)) xs ≡ drop (suc n) xs
  unfolding below last_id
  below-last_id n d [] e h = absurd (omega arith)
  below-last_id zero d (x ∷ xs) e h = ground (arith, below-All x.id xs h.1)
  below-last_id (suc n) d (x ∷ []) e h = absurd (omega arith)
  below-last_id (suc n) d (x ∷ y ∷ ys) e h =
      let lt : last_id y.id (take n ys) < x.id =
        All-last_id x.id y.id (take n ys) h.1.0 (All-take x.id n ys h.1.1) in
      let pos : 0 < last_id y.id (take n ys) =
        last_id_pos y.id (take n ys) h.2.0 (take-Descends n ys h.2.2) in
      ground (arith, lt, pos, below-last_id n x.id (y ∷ ys) (omega arith) h.2)

  All-below :
      (b o : ℕ) (xs : List (RelayMessage M))
      → All (λ x. x.id < b) xs
      → All (λ x. x.id < b) (below o xs)
  unfolding below
  All-below b o [] h = tt
  All-below b o (x ∷ xs) h = elim (Bool-cases (o == 0 || ltb x.id o)) [
    | inl e ↦ rw (e, below) (h.0, All-below b o xs h.1)
    | inr e ↦ rw (e, below) (All-below b o xs h.1)
  ]

  pub below-Descends : (o : ℕ) (xs : List (RelayMessage M)) → Descends xs → Descends (below o xs)
  unfolding below
  below-Descends o [] h = tt
  below-Descends o (x ∷ xs) h = elim (Bool-cases (o == 0 || ltb x.id o)) [
    | inl e ↦ rw (e, below) (h.0, All-below x.id o xs h.1, below-Descends o xs h.2)
    | inr e ↦ rw (e, below) (below-Descends o xs h.2)
  ]

  below_bounded : (o : ℕ) (xs : List (RelayMessage M)) → 0 < o → All (λ x. x.id < o) (below o xs)
  unfolding below
  below_bounded o [] p = tt
  below_bounded o (x ∷ xs) p = elim (Bool-cases (o == 0 || ltb x.id o)) [
    | inl e ↦ rw (e, below) (ground (arith, e), below_bounded o xs p)
    | inr e ↦ rw (e, below) (below_bounded o xs p)
  ]

  pub last_id_bounded :
      (n o d : ℕ) (xs : List (RelayMessage M)) → 0 < o → d < o → last_id d (take n (below o xs)) < o
  last_id_bounded n o d xs p q =
      All-last_id o d (take n (below o xs)) q (All-take o n (below o xs) (below_bounded o xs p))
