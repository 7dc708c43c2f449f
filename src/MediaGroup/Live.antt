-- ===== src/MediaGroup/Live.antt =====
-- In client/bot/handlers/media_group.go a group that has files has a timer, or a run that waits for the lock.
use save_any_bot.Prelude.{
  ℕ, suc, ◌<◌, ◌≡◌, ◌≢◌, refl, ap, subst, ◌∙◌, Bool, true, false, not, Option, none, some, List, [],
  ◌∷◌, ◌++◌, ◌==◌, arith, if◌then◌else◌, keep, All, All-keep, All-append, All-map, Bool-cases, inl,
  inr, ◌⊎◌, ◌||◌,
}
use save_any_bot.MediaGroup.{
  MediaGroupKey, same_key, Timer, MediaGroupHandler, new_handler, add_to_group, set_timer,
  stop_timer, without_key, collect_file, start_run, has_number, fire, take_group, remove_key,
  is_running, Step, arrives, fires, runs, run_group, step, run,
}

unfoldable pub is_started : MediaGroupKey → List Timer → Bool
unfolding same_key
is_started k [] = false
is_started k (t ∷ ts) = let rest = is_started k ts in if same_key t.key k then true else rest

abbrev Other : ℕ → Timer → Type 0
Other n t = t.number ≢ n

abbrev UniqueNumbers : List Timer → Type 0
UniqueNumbers [] = Unit
UniqueNumbers (t ∷ ts) = All (Other t.number) ts × UniqueNumbers ts

-- The timer with this number, if it is started, is of the key.
abbrev IsOf : MediaGroupKey → ℕ → Timer → Type 0
IsOf key n t = (t.number ≢ n) ⊎ (same_key t.key key ≡ true)

-- The timer that the map has for the key.
Points : List Timer → ℕ → MediaGroupKey → Option ℕ → Type 0
Points ts next key none = Unit
Points ts next key (some n) = (n < next) × All (IsOf key n) ts

abbrev Below : ℕ → Timer → Type 0
Below n t = t.number < n

UniqueNumbers-keep :
    (p : Timer → Bool) (ts : List Timer) → UniqueNumbers ts → UniqueNumbers (keep p ts)
UniqueNumbers-keep p [] h = tt
UniqueNumbers-keep p (t ∷ ts) h = either (p t) (UniqueNumbers-keep p ts h.1)
  where
    either :
        (b : Bool)
        → UniqueNumbers (keep p ts)
        → UniqueNumbers (if b then t ∷ keep p ts else keep p ts)
    either true u = (All-keep (Other t.number) p ts h.0, u)
    either false u = u

Points-keep :
    (p : Timer → Bool) (ts : List Timer) (next : ℕ) (key : MediaGroupKey) (o : Option ℕ)
    → Points ts next key o
    → Points (keep p ts) next key o
unfolding Points
Points-keep p ts next key none h = tt
Points-keep p ts next key (some n) h = (h.0, All-keep (IsOf key n) p ts h.1)

UniqueNumbers-append :
    (ts : List Timer) (t : Timer)
    → UniqueNumbers ts
    → All (Below t.number) ts
    → UniqueNumbers (ts ++ t ∷ [])
UniqueNumbers-append [] t h b = (tt, tt)
UniqueNumbers-append (x ∷ xs) t h b = (
  All-append (Other x.number) xs (t ∷ []) h.0 ((λ e. absurd (omega (arith, e, b.0))), tt),
  UniqueNumbers-append xs t h.1 b.1,
)

is_started-append :
    (k : MediaGroupKey) (ts : List Timer) (t : Timer)
    → is_started k (ts ++ t ∷ []) ≡ is_started k ts || same_key t.key k
unfolding is_started same_key
is_started-append k [] t = ground arith
is_started-append k (x ∷ xs) t = ground (arith, is_started-append k xs t)

-- Stopping a timer of one key leaves the timers of the others.
is_started-stop_timer :
    (k key : MediaGroupKey) (n : ℕ) (ts : List Timer)
    → same_key key k ≡ false
    → All (IsOf key n) ts
    → is_started k (keep (λ t. not (t.number == n)) ts) ≡ is_started k ts
unfolding is_started same_key
is_started-stop_timer k key n [] h a = refl
is_started-stop_timer k key n (t ∷ ts) h a =
    ground (arith, h, a.0, is_started-stop_timer k key n ts h a.1)

keep_others : (n : ℕ) (ts : List Timer) → All (Other n) ts → keep (λ t. not (t.number == n)) ts ≡ ts
keep_others n [] h = refl
keep_others n (t ∷ ts) h = ground (arith, h.0, keep_others n ts h.1)

-- A timer that fires is of the key that gets a run.
is_started-fire :
    (k key : MediaGroupKey) (n : ℕ) (ts : List Timer)
    → UniqueNumbers ts
    → has_number n ts ≡ some key
    → is_started k ts ≡ true
    → (is_started k (keep (λ t. not (t.number == n)) ts) ≡ true) ⊎ (same_key key k ≡ true)
unfolding is_started has_number same_key
is_started-fire k key n [] u h s = absurd (ground (arith, s))
is_started-fire k key n (t ∷ ts) u h s = elim (Bool-cases (t.number == n)) [
  | inl e ↦
      let same : t.number ≡ n = ground (arith, e) in
      ground (arith, e, h, s, keep_others n ts (subst (λ i. All (Other i) ts) same u.0))
  | inr e ↦ ground (arith, e, h, s, is_started-fire k key n ts u.1)
]

is_running-remove_key :
    (k key : MediaGroupKey) (ks : List MediaGroupKey)
    → same_key key k ≡ false
    → is_running k (remove_key key ks) ≡ is_running k ks
unfolding is_running remove_key same_key
is_running-remove_key k key [] h = refl
is_running-remove_key k key (x ∷ xs) h = ground (arith, h, is_running-remove_key k key xs)

IsOf-fresh :
    (n : ℕ) (key : MediaGroupKey) (ts : List Timer) → All (Below n) ts → All (IsOf key n) ts
IsOf-fresh n key ts h =
    All-map (Below n) (IsOf key n) ts (λ t p. inl λ e. absurd (omega (arith, e, p))) h

module _ {ℓ} {F : Type ℓ} where
  -- The group of the key has no files, or a timer of the key is started, or a run for it waits.
  abbrev pub IsLive : MediaGroupHandler F → MediaGroupKey → Type ℓ
  IsLive m k = (m.groups k ≡ []) ⊎ (is_started k m.started ≡ true) ⊎ (is_running k m.running ≡ true)

  record Inv (m : MediaGroupHandler F) : Type ℓ where
    unique : UniqueNumbers m.started
    given : All (Below m.next_number) m.started
    points : (key : MediaGroupKey) → Points m.started m.next_number key (m.timers key)
    live : (k : MediaGroupKey) → IsLive m k

  timer : MediaGroupHandler F → MediaGroupKey → Timer
  timer m key = record { number = m.next_number; key = key }

  Points-collect_file :
      (m : MediaGroupHandler F) (key k : MediaGroupKey) (o : Option ℕ) (ts : List Timer)
      → All (Below m.next_number) ts
      → Points ts m.next_number k o
      → Points (ts ++ timer m key ∷ []) (suc m.next_number) k o
  unfolding Points timer
  Points-collect_file m key k none ts b h = tt
  Points-collect_file m key k (some n) ts b h = (
    omega (arith, h.0),
    All-append (IsOf k n) ts (timer m key ∷ []) h.1 (inl (λ e. absurd (omega (arith, e, h.0))), tt),
  )

  -- What stopping the timer that the map has for a key leaves.
  record Stopped (m : MediaGroupHandler F) (key : MediaGroupKey) (ts : List Timer) : Type ℓ where
    unique : UniqueNumbers ts
    given : All (Below m.next_number) ts
    points : (k : MediaGroupKey) → Points ts m.next_number k (m.timers k)
    others : (k : MediaGroupKey) → same_key key k ≡ false → is_started k ts ≡ is_started k m.started

  stop_timer-Stopped :
      (m : MediaGroupHandler F) (key : MediaGroupKey) (o : Option ℕ)
      → Inv m
      → Points m.started m.next_number key o
      → Stopped m key (stop_timer o m.started)
  unfolding stop_timer Points
  stop_timer-Stopped m key none i h = record {
    unique = i.unique;
    given = i.given;
    points = i.points;
    others = λ k q. refl;
  }
  stop_timer-Stopped m key (some n) i h = record {
    unique = UniqueNumbers-keep (λ t. not (t.number == n)) m.started i.unique;
    given = All-keep (Below m.next_number) (λ t. not (t.number == n)) m.started i.given;
    points = λ k.
        Points-keep (λ t. not (t.number == n)) m.started m.next_number k (m.timers k) (i.points k);
    others = λ k q. is_started-stop_timer k key n m.started q h.1;
  }

  collect_file-Inv :
      (m : MediaGroupHandler F) (key : MediaGroupKey) (file : F)
      → Inv m
      → Inv (collect_file m key file)
  unfolding collect_file timer set_timer add_to_group Points
  collect_file-Inv m key file i =
      let ts = stop_timer (m.timers key) m.started in
      let st = stop_timer-Stopped m key (m.timers key) i (i.points key) in
      record {
        unique = UniqueNumbers-append ts (timer m key) st.unique st.given;
        given =
            All-append (Below (suc m.next_number)) ts (timer m key ∷ [])
              (All-map (Below m.next_number) (Below (suc m.next_number)) ts (λ t p. omega arith)
                st.given)
              (omega arith, tt);
        points = λ k. elim (Bool-cases (same_key key k)) [
          | inl q ↦ rw q (
            omega arith,
            All-append (IsOf k m.next_number) ts (timer m key ∷ [])
                (IsOf-fresh m.next_number k ts st.given) (inr q, tt),
          )
          | inr q ↦ rw q (Points-collect_file m key k (m.timers k) ts st.given (st.points k))
        ];
        live = λ k. elim (Bool-cases (same_key key k)) [
          | inl q ↦ inr (inl (is_started-append k ts (timer m key) ∙ ground (arith, q)))
          | inr q ↦ elim (i.live k) [
            | inl e ↦ inl (rw q e)
            | inr (inl s) ↦ inr (
                inl (
                  is_started-append k ts (timer m key)
                  ∙ ap (λ b. b || same_key key k) (st.others k q ∙ s)))
            | inr (inr r) ↦ inr (inr r)
          ]
        ];
      }

  start_run-Inv :
      (m : MediaGroupHandler F) (n : ℕ) (o : Option MediaGroupKey)
      → has_number n m.started ≡ o
      → Inv m
      → Inv (start_run m n o)
  unfolding start_run is_running
  start_run-Inv m n none h i = i
  start_run-Inv m n (some key) h i = record {
    unique = UniqueNumbers-keep (λ t. not (t.number == n)) m.started i.unique;
    given = All-keep (Below m.next_number) (λ t. not (t.number == n)) m.started i.given;
    points = λ k.
        Points-keep (λ t. not (t.number == n)) m.started m.next_number k (m.timers k) (i.points k);
    live = λ k. elim (i.live k) [
      | inl e ↦ inl e
      | inr (inl s) ↦ elim (is_started-fire k key n m.started i.unique h s) [
        | inl g ↦ inr (inl g)
        | inr g ↦ inr (inr (ground (arith, g)))
      ]
      | inr (inr r) ↦ inr (inr (ground (arith, r)))
    ];
  }

  run_group-Inv : (m : MediaGroupHandler F) (key : MediaGroupKey) → Inv m → Inv (run_group m key).0
  unfolding run_group take_group without_key set_timer Points
  run_group-Inv m key i = elim (Bool-cases (is_running key m.running)) [
    | inr e ↦ rw e i
    | inl e ↦ rw e record {
      unique = i.unique;
      given = i.given;
      points =
          λ k. elim (Bool-cases (same_key key k)) [ inl q ↦ rw q tt | inr q ↦ rw q (i.points k) ];
      live = λ k. elim (Bool-cases (same_key key k)) [
        | inl q ↦ inl (rw q refl)
        | inr q ↦ elim (i.live k) [
          | inl g ↦ inl (rw q g)
          | inr (inl s) ↦ inr (inl s)
          | inr (inr r) ↦ inr (inr (is_running-remove_key k key m.running q ∙ r))
        ]
      ];
    }
  ]

  step-Inv : (m : MediaGroupHandler F) (s : Step F) → Inv m → Inv (step m s).0
  unfolding step fire
  step-Inv m (arrives key file) i = collect_file-Inv m key file i
  step-Inv m (fires n) i = start_run-Inv m n (has_number n m.started) refl i
  step-Inv m (runs key) i = run_group-Inv m key i

  run-Inv : (m : MediaGroupHandler F) (ss : List (Step F)) → Inv m → Inv (run m ss).0
  unfolding run
  run-Inv m [] i = i
  run-Inv m (s ∷ ss) i = run-Inv (step m s).0 ss (step-Inv m s i)

  -- After any sequence of arrivals, of timers that fire and of the runs that they start, a group that has files
  -- has a timer that is started, or a run that waits for the lock: the files do not stay behind.
  pub run-IsLive : (ss : List (Step F)) (k : MediaGroupKey) → IsLive (run new_handler ss).0 k
  unfolding Points
  run-IsLive ss k =
      (run-Inv new_handler ss
          record { unique = tt; given = tt; points = λ key. tt; live = λ k. inl refl }).live
        k
