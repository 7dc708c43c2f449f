-- ===== src/Conflicts/Accounts.antt =====
-- What becomes of each file that client/bot/handlers/utils/shortcut/tftask.go sorts.
pub mod Placing
mod Counts
use save_any_bot.Prelude.{
  Checked, ok, refused, and_then, ℕ, ◌+◌, ◌≡◌, refl, ap, ◌∙◌, Bool, true, false, String, Option,
  none, some, List, [], ◌∷◌, ◌++◌, ◌==◌, arith, if◌then◌else◌, Bool-cases, inl, inr, ◌⊎◌, All,
  All-append, ◌&&◌, ◌||◌, str_eq,
}
use save_any_bot.Rules.{Rule, need_new_for_album}
use save_any_bot.Conflicts.{
  Strategy, File, Env, Element, AlbumFile, Album, Sorting, looks, is_ask, add_to_albums,
  create_element, place, storage_named, keep_for_album, matched_by, chosen_by, sort_in,
  sort_matched, sort_files, place_album, place_one, place_albums, sort_all,
}
use save_any_bot.Conflicts.Accounts.Counts.{
  hits, element_hits, album_hits, held, lone_hits, lone, placed, hits-append, element_hits-append,
  album_hits-append, held-add_to_albums,
}
use save_any_bot.Conflicts.Accounts.Placing.{
  Gives, and_then-Gives, Gives-map, IsSafe, IsReason, Places, place-Places, place_album-Places,
}

-- The files that a rule sends to a directory of their album, and that are in no group.
unfoldable pub stray : Env → (File → Bool) → Option (List Rule) → ℕ → String → List File → ℕ
unfolding chosen_by matched_by need_new_for_album
stray env p rules stor dir [] = 0
stray env p rules stor dir (f ∷ fs) =
    (if need_new_for_album (chosen_by env stor dir (matched_by env rules f)).1 && (f.group_id == 0)
      then (if p f then 1 else 0)
      else 0)
    + stray env p rules stor dir fs

storage_named-Gives :
    (env : Env) (stor : ℕ) (name : String)
    → Gives (IsReason env) (λ st. Unit) (storage_named env stor name)
unfolding storage_named
storage_named-Gives env stor name =
    elim (Bool-cases (str_eq name (env.name_of stor) || str_eq name "")) [
      | inl q ↦ rw q tt
      | inr q ↦ rw q (found (env.find_storage name) refl)
    ]
  where
    found : (r : Checked ℕ) → env.find_storage name ≡ r → Gives (IsReason env) (λ st. Unit) r
    found (ok st) e = tt
    found (refused err) e = inl (name, e)

module _ (env : Env) (p : File → Bool) (strategy : Strategy) where
  -- A file goes to its place or to an album, but for the `lost` ones.
  record Sorts (s : Sorting) (new lost : ℕ) (t : Sorting) : Type 0 where
    kept : placed p t + held p t.albums + lost ≡ placed p s + held p s.albums + new
    safe : IsSafe env strategy s → IsSafe env strategy t

  sort_in-Sorts :
      (dir : String) (f : File) (s : Sorting) (chosen : String) (st : ℕ)
      → Gives
          (IsReason env)
          (Sorts s
            (if p f then 1 else 0)
            (if need_new_for_album chosen && (f.group_id == 0) then (if p f then 1 else 0) else 0))
          (sort_in env strategy dir f s chosen st)
  unfolding sort_in keep_for_album placed
  sort_in-Sorts dir f s chosen st = elim (Bool-cases (need_new_for_album chosen)) [
    | inl n ↦ elim (Bool-cases (f.group_id == 0)) [
      | inl z ↦ rw (n, z) record { kept = refl; safe = λ i. i }
      | inr z ↦
          let h =
            held-add_to_albums p f.group_id (record { file = f; storage = st; dir = dir })
              s.albums in
          rw (n, z)
            record {
              kept = omega (arith, h);
              safe = λ i. record { elems = i.elems; conflicts = i.conflicts };
            }
    ]
    | inr n ↦
        let e : Element = record { storage = st; path = env.join chosen f.name; file = f } in
        rw n (
          Gives-map (IsReason env) _ _ (place env strategy e s) (place-Places env p strategy e s)
            λ t q.
              let h = q.counts in
              let a = ap (held p) q.albums in record { kept = omega (arith, h, a); safe = q.safe })
  ]

  Sorts-trans :
      (s t u : Sorting) (m n a b : ℕ) → Sorts s m a t → Sorts t n b u → Sorts s (m + n) (a + b) u
  Sorts-trans s t u m n a b q r =
      let h = q.kept in
      let k = r.kept in record { kept = omega (arith, h, k); safe = λ i. r.safe (q.safe i) }

  sort_files-Sorts :
      (rules : Option (List Rule)) (stor : ℕ) (dir : String) (fs : List File) (s : Sorting)
      → Gives
          (IsReason env)
          (Sorts s (hits p fs) (stray env p rules stor dir fs))
          (sort_files env strategy rules stor dir fs s)
  unfolding sort_files sort_matched stray hits
  sort_files-Sorts rules stor dir [] s = record { kept = refl; safe = λ i. i }
  sort_files-Sorts rules stor dir (f ∷ fs) s =
      let c = chosen_by env stor dir (matched_by env rules f) in
      let mine = if p f then 1 else 0 in
      let lost = if need_new_for_album c.1 && (f.group_id == 0) then mine else 0 in
      let all = Sorts s (hits p (f ∷ fs)) (stray env p rules stor dir (f ∷ fs)) in
      and_then-Gives (IsReason env) (Sorts s mine lost) all _ _
        (and_then-Gives (IsReason env) (λ st. Unit) (Sorts s mine lost) (storage_named env stor c.0)
          _ (storage_named-Gives env stor c.0) λ st u. sort_in-Sorts dir f s c.1 st)
        λ t q.
          Gives-map (IsReason env) (Sorts t (hits p fs) (stray env p rules stor dir fs)) all _
            (sort_files-Sorts rules stor dir fs t) λ u r. Sorts-trans s t u _ _ _ _ q r

  -- The albums of several files are placed.
  record PlacesAlbums (as' : List Album) (s t : Sorting) : Type 0 where
    kept : placed p t + lone p as' ≡ placed p s + held p as'
    albums : t.albums ≡ s.albums
    safe : IsSafe env strategy s → IsSafe env strategy t

  record PlacesOne (fs : List AlbumFile) (s t : Sorting) : Type 0 where
    kept : placed p t + lone_hits p fs ≡ placed p s + album_hits p fs
    albums : t.albums ≡ s.albums
    safe : IsSafe env strategy s → IsSafe env strategy t

  place_one-Places :
      (fs : List AlbumFile) (s : Sorting)
      → Gives (IsReason env) (PlacesOne fs s) (place_one env strategy fs s)
  unfolding place_one lone_hits album_hits
  place_one-Places [] s = record { kept = refl; albums = refl; safe = λ i. i }
  place_one-Places (f ∷ []) s = record { kept = refl; albums = refl; safe = λ i. i }
  place_one-Places (f ∷ g ∷ fs) s =
      Gives-map (IsReason env) (Places env strategy p s (album_hits p (f ∷ g ∷ fs)))
        (PlacesOne (f ∷ g ∷ fs) s) _
        (place_album-Places env p strategy f.storage (env.stem f.file.name) (f ∷ g ∷ fs) s)
        λ t q.
          let h = q.counts in record { kept = omega (arith, h); albums = q.albums; safe = q.safe }

  PlacesAlbums-trans :
      (a : Album) (as' : List Album) (s t u : Sorting)
      → PlacesOne a.files s t
      → PlacesAlbums as' t u
      → PlacesAlbums (a ∷ as') s u
  unfolding held lone
  PlacesAlbums-trans a as' s t u q r =
      let h = q.kept in
      let k = r.kept in
      record {
        kept = omega (arith, h, k);
        albums = r.albums ∙ q.albums;
        safe = λ i. r.safe (q.safe i);
      }

  place_albums-Places :
      (as' : List Album) (s : Sorting)
      → Gives (IsReason env) (PlacesAlbums as' s) (place_albums env strategy as' s)
  unfolding place_albums held lone
  place_albums-Places [] s = record { kept = refl; albums = refl; safe = λ i. i }
  place_albums-Places (a ∷ as') s =
      and_then-Gives (IsReason env) (PlacesOne a.files s) (PlacesAlbums (a ∷ as') s) _ _
        (place_one-Places a.files s)
        λ t q.
          Gives-map (IsReason env) (PlacesAlbums as' t) (PlacesAlbums (a ∷ as') s) _
            (place_albums-Places as' t) λ u r. PlacesAlbums-trans a as' s t u q r

-- Of the files that pass a test, those that are elements, are skipped, are conflicts, are alone in
-- their albums or are in no group.
pub record IsAccounted (env : Env) (p : File → Bool) (strategy : Strategy)
    (rules : Option (List Rule)) (stor : ℕ) (dir : String) (files : List File) (s : Sorting)
    : Type 0 where
  counts : placed p s + lone p s.albums + stray env p rules stor dir files ≡ hits p files
  safe : IsSafe env strategy s

-- Whatever the rules, the strategy and the storages: if sorting a message's files fails, the message is
-- that of a storage that was not found or of an element that was not made. If not, then for
-- every test on files, the files of the elements, of those skipped, of the conflicts, of the albums with
-- one file, and those whose rule asks for an album though they are in no group, are as many as
-- came; with ask or skip no element has a path that exists, and every conflict has one and comes with ask.
pub sort_all-IsAccounted :
    (env : Env) (p : File → Bool) (strategy : Strategy) (rules : Option (List Rule)) (stor : ℕ)
    (dir : String) (files : List File)
    → Gives
        (IsReason env)
        (IsAccounted env p strategy rules stor dir files)
        (sort_all env strategy rules stor dir files)
unfolding sort_all placed hits element_hits held
sort_all-IsAccounted env p strategy rules stor dir files =
    let s : Sorting = record { elems = []; skipped = []; conflicts = []; albums = [] } in
    let start : IsSafe env strategy s = record { elems = tt; conflicts = tt } in
    and_then-Gives (IsReason env)
      (Sorts env p strategy s (hits p files) (stray env p rules stor dir files)) _ _ _
      (sort_files-Sorts env p strategy rules stor dir files s)
      λ t q.
        Gives-map (IsReason env) (PlacesAlbums env p strategy t.albums t)
          (IsAccounted env p strategy rules stor dir files) _
          (place_albums-Places env p strategy t.albums t)
          λ u r.
            let h = q.kept in
            let k = r.kept in
            let a = ap (lone p) r.albums in
            record { counts = omega (arith, h, k, a); safe = r.safe (q.safe start) }
