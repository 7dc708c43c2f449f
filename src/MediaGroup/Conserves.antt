-- ===== src/MediaGroup/Conserves.antt =====
-- No file of a media group is lost or taken twice by client/bot/handlers/media_group.go.
use save_any_bot.Prelude.{
  ℕ, ◌≡◌, refl, ap, sym, ◌∙◌, Bool, true, false, List, [], ◌∷◌, ◌++◌, append_assoc, Bool-cases, inl,
  inr, append-nil, arith, if◌then◌else◌, none, some, Option,
}
use save_any_bot.MediaGroup.{
  MediaGroupKey, same_key, MediaGroupHandler, add_to_group, without_key, collect_file, start_run,
  has_number, fire, take_group, is_running, Step, arrives, fires, runs, Taken, run_group, step, run,
}

same_key-eq : (a b : MediaGroupKey) → same_key a b ≡ true → a ≡ b
unfolding same_key
same_key-eq a b h = ground (arith, h)

module _ {ℓ} {F : Type ℓ} where
  -- The files of a key among those that runs took.
  unfoldable pub taken_of : MediaGroupKey → List (Taken F) → List F
  unfolding same_key
  taken_of k [] = []
  taken_of k (t ∷ ts) = (if same_key t.key k then t.files else []) ++ taken_of k ts

  -- The files of a key that arrive.
  unfoldable pub arrived_of : MediaGroupKey → List (Step F) → List F
  unfolding same_key
  arrived_of k [] = []
  arrived_of k (arrives key file ∷ ss) =
      (if same_key key k then file ∷ [] else []) ++ arrived_of k ss
  arrived_of k (fires n ∷ ss) = arrived_of k ss
  arrived_of k (runs key ∷ ss) = arrived_of k ss

  groups-fire : (m : MediaGroupHandler F) (n : ℕ) → (fire m n).groups ≡ m.groups
  unfolding fire start_run
  groups-fire m n = go (has_number n m.started)
    where
      go : (o : Option MediaGroupKey) → (start_run m n o).groups ≡ m.groups
      go none = refl
      go (some key) = refl

  add_to_group-eq :
      (key k : MediaGroupKey) (f : F) (g : MediaGroupKey → List F)
      → add_to_group key f g k ≡ g k ++ (if same_key key k then f ∷ [] else [])
  unfolding add_to_group
  add_to_group-eq key k f g = go (same_key key k)
    where
      go : (b : Bool) → (if b then g k ++ f ∷ [] else g k) ≡ g k ++ (if b then f ∷ [] else [])
      go true = refl
      go false = sym (append-nil (g k))

  -- A run takes what the group has.
  taken-run_group :
      (m : MediaGroupHandler F) (key k : MediaGroupKey)
      → taken_of k (run_group m key).1 ++ (run_group m key).0.groups k ≡ m.groups k
  unfolding run_group take_group without_key taken_of
  taken-run_group m key k = elim (Bool-cases (is_running key m.running)) [
    | inl e ↦ elim (Bool-cases (same_key key k)) [
      | inl q ↦
          rw (e, q)
            (append-nil (m.groups key ++ [])
              ∙ append-nil (m.groups key)
              ∙ ap m.groups (same_key-eq key k q))
      | inr q ↦ rw (e, q) refl
    ]
    | inr e ↦ rw e refl
  ]

  taken_of-append :
      (k : MediaGroupKey) (xs ys : List (Taken F))
      → taken_of k (xs ++ ys) ≡ taken_of k xs ++ taken_of k ys
  unfolding taken_of
  taken_of-append k [] ys = refl
  taken_of-append k (x ∷ xs) ys =
      let mine = if same_key x.key k then x.files else [] in
      ap (λ l. mine ++ l) (taken_of-append k xs ys)
      ∙ sym (append_assoc mine (taken_of k xs) (taken_of k ys))

  -- What a step takes and leaves is what was there, and the file that arrives.
  taken-step :
      (m : MediaGroupHandler F) (s : Step F) (k : MediaGroupKey)
      → taken_of k (step m s).1 ++ (step m s).0.groups k ≡ m.groups k ++ arrived_of k (s ∷ [])
  unfolding step collect_file taken_of arrived_of
  taken-step m (arrives key file) k =
      add_to_group-eq key k file m.groups
      ∙ ap (λ l. m.groups k ++ l) (sym (append-nil (if same_key key k then file ∷ [] else [])))
  taken-step m (fires n) k = ap (λ g. g k) (groups-fire m n) ∙ sym (append-nil (m.groups k))
  taken-step m (runs key) k = taken-run_group m key k ∙ sym (append-nil (m.groups k))

  arrived_of-cons :
      (k : MediaGroupKey) (s : Step F) (ss : List (Step F))
      → arrived_of k (s ∷ ss) ≡ arrived_of k (s ∷ []) ++ arrived_of k ss
  unfolding arrived_of
  arrived_of-cons k (arrives key file) ss =
      ap (λ l. l ++ arrived_of k ss) (sym (append-nil (if same_key key k then file ∷ [] else [])))
  arrived_of-cons k (fires n) ss = refl
  arrived_of-cons k (runs key) ss = refl

  -- Whatever the order of arrivals, of timers that fire and of the runs that they start: the files that
  -- the runs took for a group, and those that it still has, are the files that arrived for it, each
  -- once and in order, after those it had at first.
  pub run-conserves :
      (m : MediaGroupHandler F) (ss : List (Step F)) (k : MediaGroupKey)
      → taken_of k (run m ss).1 ++ (run m ss).0.groups k ≡ m.groups k ++ arrived_of k ss
  unfolding run taken_of arrived_of
  run-conserves m [] k = sym (append-nil (m.groups k))
  run-conserves m (s ∷ ss) k =
      let r = step m s in
      let rest = run r.0 ss in
      ap (λ l. l ++ rest.0.groups k) (taken_of-append k r.1 rest.1)
      ∙ append_assoc (taken_of k r.1) (taken_of k rest.1) (rest.0.groups k)
      ∙ ap (λ l. taken_of k r.1 ++ l) (run-conserves r.0 ss k)
      ∙ sym (append_assoc (taken_of k r.1) (r.0.groups k) (arrived_of k ss))
      ∙ ap (λ l. l ++ arrived_of k ss) (taken-step m s k)
      ∙ append_assoc (m.groups k) (arrived_of k (s ∷ [])) (arrived_of k ss)
      ∙ ap (λ l. m.groups k ++ l) (sym (arrived_of-cons k s ss))
