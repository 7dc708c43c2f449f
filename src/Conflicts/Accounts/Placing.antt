-- ===== src/Conflicts/Accounts/Placing.antt =====
-- Where client/bot/handlers/utils/shortcut/tftask.go puts one file, and the files of an album.
use save_any_bot.Prelude.{
  Checked, ok, refused, and_then, ℕ, ◌+◌, ◌≡◌, refl, ◌∙◌, Bool, true, false, String, Option, none,
  some, List, [], ◌∷◌, ◌++◌, arith, if◌then◌else◌, Bool-cases, inl, inr, ◌⊎◌, All, All-append, ◌&&◌,
}
use save_any_bot.Conflicts.{
  Strategy, File, Env, Element, AlbumFile, Sorting, looks, is_ask, create_element, place,
  place_album,
}
use save_any_bot.Conflicts.Accounts.Counts.{album_hits, placed, hits-append, element_hits-append}

-- What holds of a value, or of the message of an error.
abbrev pub Gives : {A : Type 0} → (String → Type 0) → (A → Type 0) → Checked A → Type 0
Gives E P (ok a) = P a
Gives E P (refused e) = E e

pub and_then-Gives :
    {A B : Type 0} (E : String → Type 0) (P : A → Type 0) (Q : B → Type 0) (c : Checked A)
    (f : A → Checked B)
    → Gives E P c
    → ((a : A) → P a → Gives E Q (f a))
    → Gives E Q (and_then c f)
unfolding and_then
and_then-Gives E P Q (ok a) f h g = g a h
and_then-Gives E P Q (refused e) f h g = h

-- No element replaces a file that is there, where the strategy looks for one; and a conflict is a file
-- that is there, of a user who is to be asked.
pub record IsSafe (env : Env) (strategy : Strategy) (s : Sorting) : Type 0 where
  pub elems : All (λ e. (looks strategy && env.exists e.storage e.path) ≡ false) s.elems
  pub conflicts :
      All
        (λ e. (is_ask strategy ≡ true) × ((looks strategy && env.exists e.storage e.path) ≡ true))
        s.conflicts

pub record Places (env : Env) (strategy : Strategy) (p : File → Bool) (s : Sorting) (n : ℕ)
    (t : Sorting) : Type 0 where
  pub counts : placed p t ≡ placed p s + n
  pub albums : t.albums ≡ s.albums
  pub safe : IsSafe env strategy s → IsSafe env strategy t

-- An error comes from the search for a storage or from making an element.
abbrev pub IsReason : Env → String → Type 0
IsReason env e =
    ((name : String) × (env.find_storage name ≡ refused e))
    ⊎ ((x : Element) × (env.make_element x.storage x.path x.file ≡ some e))

pub Gives-map :
    {A : Type 0} (E : String → Type 0) (P Q : A → Type 0) (c : Checked A)
    → Gives E P c
    → ((a : A) → P a → Q a)
    → Gives E Q c
Gives-map E P Q (ok a) h g = g a h
Gives-map E P Q (refused e) h g = h

module _ (env : Env) (p : File → Bool) (strategy : Strategy) where
  create_element-Places :
      (e : Element) (s : Sorting) (r : Option String)
      → env.make_element e.storage e.path e.file ≡ r
      → (looks strategy && env.exists e.storage e.path) ≡ false
      → Gives
          (IsReason env)
          (Places env strategy p s (if p e.file then 1 else 0))
          (create_element env e s r)
  unfolding create_element placed
  create_element-Places e s none q l =
      let h = element_hits-append p s.elems e in
      record {
        counts = omega (arith, h);
        albums = refl;
        safe = λ i. record {
          elems = All-append _ s.elems (e ∷ []) i.elems (l, tt);
          conflicts = i.conflicts;
        };
      }
  create_element-Places e s (some err) q l = inr (e, q)

  pub place-Places :
      (e : Element) (s : Sorting)
      → Gives
          (IsReason env)
          (Places env strategy p s (if p e.file then 1 else 0))
          (place env strategy e s)
  unfolding place placed
  place-Places e s = elim (Bool-cases (looks strategy && env.exists e.storage e.path)) [
    | inl q ↦ elim (Bool-cases (is_ask strategy)) [
      | inl a ↦
          let h = element_hits-append p s.conflicts e in
          let there : All
              (λ x.
                (is_ask strategy ≡ true) × ((looks strategy && env.exists x.storage x.path) ≡ true))
              (e ∷ []) =
            ((a, q), tt) in
          let safe : IsSafe env strategy s
              → IsSafe env strategy (record s { conflicts = s.conflicts ++ e ∷ [] }) =
            λ i. record {
              elems = i.elems;
              conflicts = All-append _ s.conflicts (e ∷ []) i.conflicts there;
            } in
          rw (q, a) record { counts = omega (arith, h); albums = refl; safe = safe }
      | inr a ↦
          let h = hits-append p s.skipped e.file in
          let safe : IsSafe env strategy s
              → IsSafe env strategy (record s { skipped = s.skipped ++ e.file ∷ [] }) =
            λ i. record { elems = i.elems; conflicts = i.conflicts } in
          rw (q, a) record { counts = omega (arith, h); albums = refl; safe = safe }
    ]
    | inr q ↦ rw q (create_element-Places e s (env.make_element e.storage e.path e.file) refl q)
  ]

  Places-trans :
      (s t u : Sorting) (m n : ℕ)
      → Places env strategy p s m t
      → Places env strategy p t n u
      → Places env strategy p s (m + n) u
  Places-trans s t u m n q r =
      let h = q.counts in
      let k = r.counts in
      record {
        counts = omega (arith, h, k);
        albums = r.albums ∙ q.albums;
        safe = λ i. r.safe (q.safe i);
      }

  pub place_album-Places :
      (stor : ℕ) (dir : String) (fs : List AlbumFile) (s : Sorting)
      → Gives
          (IsReason env)
          (Places env strategy p s (album_hits p fs))
          (place_album env strategy stor dir fs s)
  unfolding place_album album_hits
  place_album-Places stor dir [] s = record { counts = omega arith; albums = refl; safe = λ i. i }
  place_album-Places stor dir (f ∷ fs) s =
      let e : Element = record {
        storage = stor;
        path = env.join (env.join f.dir dir) f.file.name;
        file = f.file;
      } in
      let all = Places env strategy p s (album_hits p (f ∷ fs)) in
      and_then-Gives (IsReason env) (Places env strategy p s (if p f.file then 1 else 0)) all _ _
        (place-Places e s)
        λ t q.
          Gives-map (IsReason env) (Places env strategy p t (album_hits p fs)) all _
            (place_album-Places stor dir fs t) λ u r. Places-trans s t u _ _ q r
