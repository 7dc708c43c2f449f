-- ===== src/Conflicts/Accounts/Counts.antt =====
-- How many of the files that client/bot/handlers/utils/shortcut/tftask.go sorts pass a test.
use save_any_bot.Prelude.{
  ℕ, ◌+◌, ◌≡◌, Bool, List, [], ◌∷◌, ◌++◌, ◌==◌, arith, if◌then◌else◌, Bool-cases, inl, inr,
}
use save_any_bot.Conflicts.{File, Element, AlbumFile, Album, Sorting, add_to_albums}

-- How many files pass a test.
unfoldable pub hits : (File → Bool) → List File → ℕ
hits p [] = 0
hits p (f ∷ fs) = (if p f then 1 else 0) + hits p fs

unfoldable pub element_hits : (File → Bool) → List Element → ℕ
element_hits p [] = 0
element_hits p (e ∷ es) = (if p e.file then 1 else 0) + element_hits p es

unfoldable pub album_hits : (File → Bool) → List AlbumFile → ℕ
album_hits p [] = 0
album_hits p (f ∷ fs) = (if p f.file then 1 else 0) + album_hits p fs

unfoldable pub held : (File → Bool) → List Album → ℕ
unfolding album_hits
held p [] = 0
held p (a ∷ as') = album_hits p a.files + held p as'

-- The files that are the only ones of their albums.
unfoldable pub lone_hits : (File → Bool) → List AlbumFile → ℕ
unfolding album_hits
lone_hits p [] = 0
lone_hits p (f ∷ []) = album_hits p (f ∷ [])
lone_hits p (f ∷ g ∷ fs) = 0

unfoldable pub lone : (File → Bool) → List Album → ℕ
unfolding lone_hits
lone p [] = 0
lone p (a ∷ as') = lone_hits p a.files + lone p as'

-- The files that became elements, conflicts or files to skip.
unfoldable pub placed : (File → Bool) → Sorting → ℕ
unfolding hits element_hits
placed p s = element_hits p s.elems + hits p s.skipped + element_hits p s.conflicts

pub hits-append :
    (p : File → Bool) (fs : List File) (f : File)
    → hits p (fs ++ f ∷ []) ≡ hits p fs + (if p f then 1 else 0)
unfolding hits
hits-append p [] f = omega arith
hits-append p (g ∷ fs) f = let h = hits-append p fs f in omega (arith, h)

pub element_hits-append :
    (p : File → Bool) (es : List Element) (e : Element)
    → element_hits p (es ++ e ∷ []) ≡ element_hits p es + (if p e.file then 1 else 0)
unfolding element_hits
element_hits-append p [] e = omega arith
element_hits-append p (g ∷ es) e = let h = element_hits-append p es e in omega (arith, h)

pub album_hits-append :
    (p : File → Bool) (fs : List AlbumFile) (f : AlbumFile)
    → album_hits p (fs ++ f ∷ []) ≡ album_hits p fs + (if p f.file then 1 else 0)
unfolding album_hits
album_hits-append p [] f = omega arith
album_hits-append p (g ∷ fs) f = let h = album_hits-append p fs f in omega (arith, h)

pub held-add_to_albums :
    (p : File → Bool) (id : ℕ) (f : AlbumFile) (as' : List Album)
    → held p (add_to_albums id f as') ≡ held p as' + (if p f.file then 1 else 0)
unfolding held add_to_albums album_hits
held-add_to_albums p id f [] = omega arith
held-add_to_albums p id f (a ∷ as') = elim (Bool-cases (a.group_id == id)) [
  | inl q ↦ let h = album_hits-append p a.files f in rw q (omega (arith, h))
  | inr q ↦ let h = held-add_to_albums p id f as' in rw q (omega (arith, h))
]
