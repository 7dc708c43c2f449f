-- ===== src/Alist/Examples.antt =====
-- A server with one directory that has changed its token, for storage/alist.
use save_any_bot.Prelude.{
  Checked, ok, ℕ, suc, ◌≡◌, ◌≢◌, refl, true, false, Bool, Bool-cases, str_eq, str_eq_iff,
  str_eq_refl, String, none, some, List, [], ◌∷◌, inl, inr, arith, if◌then◌else◌, All,
}
use save_any_bot.Alist.{Response, Server, World, Paths, Upload, save, candidate_of, is_unauthorized}
use save_any_bot.Alist.Stores.{Keeps, IsDone}
use save_any_bot.Alist.Recovery.{IsAnswer, Grants, save-Recovers}

record Disk : Type 0 where
  logins : ℕ
  dirs : List String
  files : List String

unfoldable has : String → List String → Bool
has p [] = false
has p (q ∷ qs) = let rest = has p qs in if str_eq q p then true else rest

unfoldable answer : String → Checked Response
answer token =
    if str_eq token "new"
    then ok (record { status = 200; code = 200; message = "" })
    else ok (record { status = 401; code = 0; message = "token expired" })

abbrev server : Server Disk
server = record {
  exists = λ s t p. has p s.dirs;
  mkdir = λ s t p. ((if str_eq t "new" then record s { dirs = p ∷ s.dirs } else s), answer t);
  put = λ s t p. ((if str_eq t "new" then record s { files = p ∷ s.files } else s), answer t);
  login = λ s.
      (record s { logins = suc s.logins }, ok (record { code = 200; message = ""; token = "new" }));
  now = λ s. s.logins;
}

answer-IsAnswer : (token : String) → IsAnswer "new" token (answer token)
unfolding answer is_unauthorized
answer-IsAnswer token = elim (Bool-cases (str_eq token "new")) [
  | inl e ↦ rw e (inl (refl, refl))
  | inr e ↦ rw e (inr (refl, other e))
]
  where
    other : str_eq token "new" ≡ false → token ≢ "new"
    other e h = ground (arith, e, h, str_eq_iff token "new")

grants : Grants server "new"
grants = record {
  login = λ s. (refl, refl);
  mkdir = λ s t p. answer-IsAnswer t;
  put = λ s t p. answer-IsAnswer t;
}

abbrev HasDir : Disk → String → Type 0
HasDir s p = has p s.dirs ≡ true

abbrev Stored : Disk → String → Type 0
Stored s p = has p s.files ≡ true

made : (s : Disk) (t p : String) → IsDone (answer t) → HasDir (server.mkdir s t p).0 p
unfolding answer has
made s t p d = elim (Bool-cases (str_eq t "new")) [
  | inl e ↦ rw (e, str_eq_refl p) refl
  | inr e ↦ absurd (refused_only e d)
]
  where
    refused_only : str_eq t "new" ≡ false → IsDone (answer t) → ⊥
    refused_only e = rw e (λ d. absurd (ground (arith, d.0)))

stored : (s : Disk) (t p : String) → IsDone (answer t) → Stored (server.put s t p).0 p
unfolding answer has
stored s t p d = elim (Bool-cases (str_eq t "new")) [
  | inl e ↦ rw (e, str_eq_refl p) refl
  | inr e ↦ absurd (refused_only e d)
]
  where
    refused_only : str_eq t "new" ≡ false → IsDone (answer t) → ⊥
    refused_only e = rw e (λ d. absurd (ground (arith, d.0)))

mkdir_keeps : (s : Disk) (t p q : String) → HasDir s q → HasDir (server.mkdir s t p).0 q
unfolding has
mkdir_keeps s t p q h = ground (arith, h)

put_keeps : (s : Disk) (t p q : String) → HasDir s q → HasDir (server.put s t p).0 q
unfolding has
put_keeps s t p q h = ground (arith, h)

keeps : Keeps server HasDir Stored
keeps = record {
  shown = λ s t p e. e;
  made = made;
  stored = stored;
  mkdir_keeps = mkdir_keeps;
  put_keeps = put_keeps;
  login_keeps = λ s q h. h;
}

abbrev paths : Paths
paths = record { choose = λ taken p. p; join = λ p. p; parents = λ p. "/old" ∷ "/old/new" ∷ [] }

abbrev upload : Upload
upload = record { overwrite = false; seekable = true; rewind = none }

abbrev world : World Disk
world = record {
  alist = record { token = "stale"; last_login_at = none; has_login = true; token_exp = 3600 };
  server = record { logins = 0; dirs = "/old" ∷ []; files = [] };
}

save-Recovers_example :
    ((save server paths upload world "/old/new/a.jpg").1 ≡ none)
    × All
        (HasDir (save server paths upload world "/old/new/a.jpg").0.server)
        ("/old" ∷ "/old/new" ∷ [])
    × Stored
        (save server paths upload world "/old/new/a.jpg").0.server
        (candidate_of server paths upload world "/old/new/a.jpg")
save-Recovers_example =
    save-Recovers server "new" grants HasDir Stored keeps paths upload world "/old/new/a.jpg" refl
      refl (refl, inr refl)

-- The stale token makes the client log in once.
logs_in_once : (save server paths upload world "/old/new/a.jpg").0.server.logins ≡ 1
unfolding save answer has
logs_in_once = refl

-- A reader that cannot be read again is not sent again.
not_replayed :
    (save server
      (record paths { parents = λ p. [] })
      (record upload { seekable = false })
      world
      "/a.jpg").1
    ≡ some "streaming reader cannot be replayed for retry"
unfolding save answer
not_replayed = refl
