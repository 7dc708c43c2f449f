-- ===== src/Alist/Recovery.antt =====
-- What the Alist client of storage/alist does when the server no longer takes its token.
use save_any_bot.Prelude.{
  All, Checked, ok, refused, ℕ, ltb, ◌-◌, ◌≡◌, ◌≢◌, refl, sym, subst, Bool, true, false, String,
  Option, none, some, List, [], ◌∷◌, ◌⊎◌, inl, inr, if◌then◌else◌, Bool-cases, ◌&&◌, not,
}
use save_any_bot.Alist.{
  Response, LoginResponse, Server, Alist, World, Paths, Upload, is_fresh, token_refresh_window,
  is_unauthorized, after_login, fetch_token, get_token, exists_path, mkdir_request, put_file,
  check_made, retry_mkdir, after_mkdir, make_segment, mkdir_all, check_put, replay, after_put,
  save_at, candidate_of, save,
}
use save_any_bot.Alist.Stores.{Keeps, save-Saved}

-- An answer under a token: the request was done, or the token was refused and is not the good one.
abbrev pub IsAnswer : String → String → Checked Response → Type 0
IsAnswer good token (refused e) = ⊥
IsAnswer good token (ok r) =
    ((r.status ≡ 200) × (r.code ≡ 200)) ⊎ ((is_unauthorized r.status ≡ true) × (token ≢ good))

abbrev pub IsLogin : String → Checked LoginResponse → Type 0
IsLogin good (refused e) = ⊥
IsLogin good (ok r) = (r.code ≡ 200) × (r.token ≡ good)

-- A server that gives one token to who logs in, takes that token, and may refuse any other.
pub record Grants {S : Type 0} (srv : Server S) (good : String) : Type 0 where
  pub login : (s : S) → IsLogin good (srv.login s).1
  pub mkdir : (s : S) (token path : String) → IsAnswer good token (srv.mkdir s token path).1
  pub put : (s : S) (token path : String) → IsAnswer good token (srv.put s token path).1

-- The client can log in, and has the good token or has not logged in since it was made.
abbrev pub IsReady : {S : Type 0} → String → World S → Type 0
IsReady good w =
    (w.alist.has_login ≡ true) × ((w.alist.token ≡ good) ⊎ (w.alist.last_login_at ≡ none))

-- A result without error, of a client that can log in.
record Succeeds {S : Type 0} (P : Alist → Type 0) (r : World S × Option String) : Type 0 where
  no_error : r.1 ≡ none
  login : r.0.alist.has_login ≡ true
  holds : P r.0.alist

module _ {S : Type 0} (srv : Server S) (good : String) (grants : Grants srv good) where
  after_login-Succeeds :
      (a : Alist) (r : S × Checked LoginResponse)
      → a.has_login ≡ true
      → IsLogin good r.1
      → Succeeds (λ b. b.token ≡ good) (after_login srv a r)
  unfolding after_login
  after_login-Succeeds a (s, refused e) h g = absurd g
  after_login-Succeeds a (s, ok r) h g = rw g.0 record { no_error = refl; login = h; holds = g.1 }

  -- A client that has not logged in gets the good token.
  get_token-Succeeds :
      (w : World S)
      → w.alist.has_login ≡ true
      → w.alist.last_login_at ≡ none
      → Succeeds (λ b. b.token ≡ good) (get_token srv w)
  unfolding get_token fetch_token is_fresh
  get_token-Succeeds w h n =
      let r = after_login srv w.alist (srv.login w.server) in
      let denied : World S × Option String =
        (w, some "token-only alist storage cannot refresh credentials") in
      let fresh : Option ℕ → Bool = λ o. elim o [
        | none ↦ false
        | some t ↦ ltb (srv.now w.server - t) (token_refresh_window w.alist)
      ] in
      subst (λ o. Succeeds (λ b. b.token ≡ good) (if fresh o then (w, none) else fetch_token srv w))
        (sym n)
        (subst (λ b. Succeeds (λ b. b.token ≡ good) (if b then r else denied)) (sym h)
          (after_login-Succeeds w.alist (srv.login w.server) h (grants.login w.server)))

  -- An answer under the good token is that of a request that was done.
  done-good :
      (token : String) (r : Response)
      → IsAnswer good token (ok r)
      → token ≡ good
      → (r.status ≡ 200) × (r.code ≡ 200)
  done-good token r (inl d) e = d
  done-good token r (inr (u, n)) e = absurd (n e)

  check_made-Succeeds :
      (w : World S) (path : String) (r : Checked Response)
      → w.alist.has_login ≡ true
      → w.alist.token ≡ good
      → IsAnswer good w.alist.token r
      → Succeeds (λ b. b.token ≡ good) (check_made srv path (w, r))
  unfolding check_made
  check_made-Succeeds w path (refused e) h g a = absurd a
  check_made-Succeeds w path (ok r) h g a =
      let d = done-good w.alist.token r a g in
      rw (d.0, d.1) record { no_error = refl; login = h; holds = g }

  retry_mkdir-Succeeds :
      (path : String) (r : World S × Option String)
      → Succeeds (λ b. b.token ≡ good) r
      → Succeeds (λ b. b.token ≡ good) (retry_mkdir srv path r)
  unfolding retry_mkdir mkdir_request
  retry_mkdir-Succeeds path (w, some e) q = absurd (cc q.no_error)
  retry_mkdir-Succeeds path (w, none) q = elim (Bool-cases (exists_path srv w path)) [
    | inl e ↦ rw e record { no_error = refl; login = q.login; holds = q.holds }
    | inr e ↦
        let a = srv.mkdir w.server w.alist.token path in
        rw e (
          check_made-Succeeds (record w { server = a.0 }) path a.1 q.login q.holds
            (grants.mkdir w.server w.alist.token path))
  ]

  check_put-Succeeds :
      (w : World S) (r : Checked Response)
      → w.alist.has_login ≡ true
      → w.alist.token ≡ good
      → IsAnswer good w.alist.token r
      → Succeeds (λ b. b.token ≡ good) (check_put (w, r))
  unfolding check_put
  check_put-Succeeds w (refused e) h g a = absurd a
  check_put-Succeeds w (ok r) h g a =
      let d = done-good w.alist.token r a g in
      rw (d.0, d.1) record { no_error = refl; login = h; holds = g }

  replay-Succeeds :
      (u : Upload) (path : String) (r : World S × Option String)
      → u.seekable ≡ true
      → u.rewind ≡ none
      → Succeeds (λ b. b.token ≡ good) r
      → Succeeds (λ b. b.token ≡ good) (replay srv u path r)
  unfolding replay put_file
  replay-Succeeds u path (w, some e) s n q = absurd (cc q.no_error)
  replay-Succeeds u path (w, none) s n q =
      let a = srv.put w.server w.alist.token path in
      rw (s, n)
        (check_put-Succeeds (record w { server = a.0 }) a.1 q.login q.holds
          (grants.put w.server w.alist.token path))

  -- In the loop over the directories: the token is good, or a login is still to be made.
  abbrev MayLogin : Bool → Alist → Type 0
  MayLogin refreshed a = (a.token ≡ good) ⊎ ((a.last_login_at ≡ none) × (refreshed ≡ false))

  record Segment (r : World S × Bool × Option String) : Type 0 where
    no_error : r.2 ≡ none
    login : r.0.alist.has_login ≡ true
    holds : MayLogin r.1 r.0.alist

  after_mkdir-Segment :
      (w : World S) (refreshed : Bool) (path : String) (r : Checked Response)
      → w.alist.has_login ≡ true
      → MayLogin refreshed w.alist
      → IsAnswer good w.alist.token r
      → Segment (after_mkdir srv refreshed path (w, r))
  unfolding after_mkdir check_made is_unauthorized
  after_mkdir-Segment w refreshed path (refused e) h m a = absurd a
  after_mkdir-Segment w refreshed path (ok r) h m (inl d) =
      rw (d.0, d.1) record { no_error = refl; login = h; holds = m }
  after_mkdir-Segment w refreshed path (ok r) h (inl g) (inr (u, n)) = absurd (n g)
  after_mkdir-Segment w refreshed path (ok r) h (inr (l, f)) (inr (u, n)) =
      let t = retry_mkdir srv path (get_token srv w) in
      let q = retry_mkdir-Succeeds path (get_token srv w) (get_token-Succeeds w h l) in
      let c = check_made srv path (w, ok r) in
      let denied : World S × Bool × Option String =
        (w, refreshed, some "failed to create directory") in
      let again : World S × Bool × Option String = (t.0, true, t.1) in
      let other : World S × Bool × Option String = (c.0, refreshed, c.1) in
      subst (λ b. Segment (if b then (if w.alist.has_login then again else denied) else other))
        (sym (unauthorized r.status refreshed u f))
        (subst (λ b. Segment (if b then again else denied)) (sym h)
          record { no_error = q.no_error; login = q.login; holds = inl q.holds })
    where
      unauthorized :
          (n : ℕ) (b : Bool)
          → is_unauthorized n ≡ true
          → b ≡ false
          → (is_unauthorized n && not b) ≡ true
      unauthorized n b u f = rw (u, f) refl

  make_segment-Segment :
      (w : World S) (refreshed : Bool) (path : String)
      → w.alist.has_login ≡ true
      → MayLogin refreshed w.alist
      → Segment (make_segment srv w refreshed path)
  unfolding make_segment mkdir_request
  make_segment-Segment w refreshed path h m = elim (Bool-cases (exists_path srv w path)) [
    | inl e ↦ rw e record { no_error = refl; login = h; holds = m }
    | inr e ↦
        let a = srv.mkdir w.server w.alist.token path in
        rw e (
          after_mkdir-Segment (record w { server = a.0 }) refreshed path a.1 h m
            (grants.mkdir w.server w.alist.token path))
  ]

  mkdir_all-Succeeds :
      (w : World S) (refreshed : Bool) (paths : List String)
      → w.alist.has_login ≡ true
      → MayLogin refreshed w.alist
      → Succeeds
          (λ a. (a.token ≡ good) ⊎ (a.last_login_at ≡ none))
          (mkdir_all srv w refreshed paths)
  unfolding mkdir_all
  mkdir_all-Succeeds w refreshed [] h (inl g) = record { no_error = refl; login = h; holds = inl g }
  mkdir_all-Succeeds w refreshed [] h (inr (l, f)) = record {
    no_error = refl;
    login = h;
    holds = inr l;
  }
  mkdir_all-Succeeds w refreshed (p ∷ ps) h m =
      let r = make_segment srv w refreshed p in
      let q = make_segment-Segment w refreshed p h m in
      rw (q.no_error, mkdir_all) (mkdir_all-Succeeds r.0 r.1 ps q.login q.holds)

  after_put-Succeeds :
      (u : Upload) (path : String) (w : World S) (r : Checked Response)
      → u.seekable ≡ true
      → u.rewind ≡ none
      → w.alist.has_login ≡ true
      → (w.alist.token ≡ good) ⊎ (w.alist.last_login_at ≡ none)
      → IsAnswer good w.alist.token r
      → (after_put srv u path (w, r)).1 ≡ none
  unfolding after_put check_put is_unauthorized
  after_put-Succeeds u path w (refused e) k n h m a = absurd a
  after_put-Succeeds u path w (ok r) k n h m (inl d) = rw (d.0, d.1) refl
  after_put-Succeeds u path w (ok r) k n h (inl g) (inr (x, y)) = absurd (y g)
  after_put-Succeeds u path w (ok r) k n h (inr l) (inr (x, y)) =
      let t = replay srv u path (get_token srv w) in
      let q = replay-Succeeds u path (get_token srv w) k n (get_token-Succeeds w h l) in
      let denied : World S × Option String = (w, some "failed to save file to Alist") in
      subst
        (λ b.
          (if b then (if w.alist.has_login then t else denied) else check_put (w, ok r)).1 ≡ none)
        (sym x) (subst (λ b. (if b then t else denied).1 ≡ none) (sym h) q.no_error)

  save_at-Succeeds :
      (u : Upload) (path : String) (r : World S × Option String)
      → u.seekable ≡ true
      → u.rewind ≡ none
      → Succeeds (λ a. (a.token ≡ good) ⊎ (a.last_login_at ≡ none)) r
      → (save_at srv u path r).1 ≡ none
  unfolding save_at put_file
  save_at-Succeeds u path (w, some e) k n q = absurd (cc q.no_error)
  save_at-Succeeds u path (w, none) k n q =
      let a = srv.put w.server w.alist.token path in
      after_put-Succeeds u path (record w { server = a.0 }) a.1 k n q.login q.holds
        (grants.put w.server w.alist.token path)

  save_without_error :
      (paths : Paths) (u : Upload) (w : World S) (path : String)
      → u.seekable ≡ true
      → u.rewind ≡ none
      → IsReady good w
      → (save srv paths u w path).1 ≡ none
  unfolding save
  save_without_error paths u w path k n ready =
      let c = candidate_of srv paths u w path in
      save_at-Succeeds u c (mkdir_all srv w false (paths.parents c)) k n
        (mkdir_all-Succeeds w false (paths.parents c) ready.0 (may ready.1))
    where
      may : (w.alist.token ≡ good) ⊎ (w.alist.last_login_at ≡ none) → MayLogin false w.alist
      may (inl g) = inl g
      may (inr l) = inr (l, refl)

  -- A client that `Init` made with a name and a password, and that has not logged in since, saves every
  -- file that it can read again from the start, though the server may refuse its token for any
  -- directory or for the file: there is no error, the server then has every directory above the
  -- chosen path, and it has stored the upload there. It needs a server that gives a token to who logs
  -- in, that does what is asked under that token, and that keeps what it has.
  pub save-Recovers :
      (HasDir Stored : S → String → Type 0) (keeps : Keeps srv HasDir Stored) (paths : Paths)
      (u : Upload) (w : World S) (path : String)
      → u.seekable ≡ true
      → u.rewind ≡ none
      → IsReady good w
      → let c = candidate_of srv paths u w path in
        let r = save srv paths u w path in
        (r.1 ≡ none) × All (HasDir r.0.server) (paths.parents c) × Stored r.0.server c
  save-Recovers HasDir Stored keeps paths u w path k n ready =
      let e = save_without_error paths u w path k n ready in
      let t = save-Saved srv HasDir Stored keeps paths u w path e in (e, t.0, t.1)
