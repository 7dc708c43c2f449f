-- ===== src/Alist/Stores.antt =====
-- What a server of storage/alist has after the requests of a client that saw no error.
use save_any_bot.Prelude.{
  Checked, ok, refused, ◌≡◌, refl, sym, subst, Bool, true, false, String, Option, none, some, List,
  [], ◌∷◌, inl, inr, if◌then◌else◌, Bool-cases, ◌==◌, ◌&&◌, not, All, arith,
}
use save_any_bot.Alist.{
  Response, LoginResponse, Server, Alist, World, Paths, Upload, is_fresh, is_unauthorized,
  after_login, fetch_token, get_token, exists_path, mkdir_request, put_file, check_made,
  retry_mkdir, after_mkdir, make_segment, mkdir_all, check_put, replay, after_put, save_at,
  candidate_of, save,
}

abbrev pub IsDone : Checked Response → Type 0
IsDone (refused e) = ⊥
IsDone (ok r) = (r.status ≡ 200) × (r.code ≡ 200)

-- What a server has of directories and of files, by what it answers: a path that it shows or that it
-- made is there, an upload that it took is stored, and no request takes any of this away.
pub record Keeps {S : Type 0} (srv : Server S) (HasDir Stored : S → String → Type 0) : Type 0 where
  pub shown : (s : S) (token path : String) → srv.exists s token path ≡ true → HasDir s path
  pub made :
      (s : S) (token path : String)
      → IsDone (srv.mkdir s token path).1
      → HasDir (srv.mkdir s token path).0 path
  pub stored :
      (s : S) (token path : String)
      → IsDone (srv.put s token path).1
      → Stored (srv.put s token path).0 path
  pub mkdir_keeps :
      (s : S) (token path q : String) → HasDir s q → HasDir (srv.mkdir s token path).0 q
  pub put_keeps : (s : S) (token path q : String) → HasDir s q → HasDir (srv.put s token path).0 q
  pub login_keeps : (s : S) (q : String) → HasDir s q → HasDir (srv.login s).0 q

module _ {S : Type 0} (srv : Server S) (HasDir Stored : S → String → Type 0)
    (keeps : Keeps srv HasDir Stored) where
  -- The directories that were there still are.
  abbrev Grows : S → S → Type 0
  Grows s t = (q : String) → HasDir s q → HasDir t q

  -- A step that keeps directories, and that makes something of its last state unless it fails.
  record Makes (P : S → Type 0) (s : S) (r : World S × Option String) : Type 0 where
    kept : Grows s r.0.server
    made : r.1 ≡ none → P r.0.server

  after_login-server :
      (a : Alist) (r : S × Checked LoginResponse) → (after_login srv a r).0.server ≡ r.0
  unfolding after_login
  after_login-server a (s, refused e) = refl
  after_login-server a (s, ok r) = elim (Bool-cases (r.code == 200)) [
    | inl e ↦ rw e refl
    | inr e ↦ rw e refl
  ]

  branch-Grows :
      (s : S) (b : Bool) (x y : World S × Option String)
      → Grows s x.0.server
      → Grows s y.0.server
      → Grows s (if b then x else y).0.server
  branch-Grows s true x y g h = g
  branch-Grows s false x y g h = h

  get_token-Grows : (w : World S) → Grows w.server (get_token srv w).0.server
  unfolding get_token fetch_token
  get_token-Grows w =
      let logged = after_login srv w.alist (srv.login w.server) in
      branch-Grows w.server (is_fresh w.alist (srv.now w.server)) (w, none) _ (λ q h. h)
        (branch-Grows w.server w.alist.has_login logged _
          (λ q h.
            subst (λ t. HasDir t q) (sym (after_login-server w.alist (srv.login w.server)))
              (keeps.login_keeps w.server q h))
          (λ q h. h))

  branch-Makes :
      (P : S → Type 0) (s : S) (b : Bool) (x y : World S × Option String)
      → Makes P s x
      → Makes P s y
      → Makes P s (if b then x else y)
  branch-Makes P s true x y g h = g
  branch-Makes P s false x y g h = h

  -- A step that fails and changes nothing.
  fails-Makes : (P : S → Type 0) (w : World S) (e : String) → Makes P w.server (w, some e)
  fails-Makes P w e = record { kept = λ q h. h; made = λ k. absurd (cc k) }

  after-Makes :
      (P : S → Type 0) (s t : S) (r : World S × Option String)
      → Grows s t
      → Makes P t r
      → Makes P s r
  after-Makes P s t r g m = record { kept = λ q h. m.kept q (g q h); made = m.made }

  check_made-Makes :
      (path : String) (w : World S) (r : Checked Response)
      → (IsDone r → HasDir w.server path)
      → Makes (λ t. HasDir t path) w.server (check_made srv path (w, r))
  unfolding check_made
  check_made-Makes path w (refused e) d = fails-Makes (λ t. HasDir t path) w e
  check_made-Makes path w (ok r) d = elim (Bool-cases (r.status == 200)) [
    | inr e ↦ rw e (fails-Makes (λ t. HasDir t path) w "failed to create directory")
    | inl e ↦ elim (Bool-cases (r.code == 200)) [
      | inl f ↦
          rw (e, f) record { kept = λ q h. h; made = λ k. d (ground (arith, e), ground (arith, f)) }
      | inr f ↦ elim (Bool-cases (exists_path srv w path)) [
        | inl x ↦
            rw (e, f, x)
              record {
                kept = λ q h. h;
                made = λ k. keeps.shown w.server w.alist.token path (unfold exists_path in x);
              }
        | inr x ↦ rw (e, f, x) (fails-Makes (λ t. HasDir t path) w "failed to create directory")
      ]
    ]
  ]

  retry_mkdir-Makes :
      (path : String) (s : S) (r : World S × Option String)
      → Grows s r.0.server
      → Makes (λ t. HasDir t path) s (retry_mkdir srv path r)
  unfolding retry_mkdir mkdir_request
  retry_mkdir-Makes path s (w, some e) g =
      after-Makes (λ t. HasDir t path) s w.server _ g
        (fails-Makes (λ t. HasDir t path) w "failed to refresh alist token")
  retry_mkdir-Makes path s (w, none) g = elim (Bool-cases (exists_path srv w path)) [
    | inl e ↦ rw e record {
      kept = g;
      made = λ k. keeps.shown w.server w.alist.token path (unfold exists_path in e);
    }
    | inr e ↦
        let a = srv.mkdir w.server w.alist.token path in
        rw e (
          after-Makes (λ t. HasDir t path) s a.0 _
            (λ q h. keeps.mkdir_keeps w.server w.alist.token path q (g q h))
            (check_made-Makes path (record w { server = a.0 }) a.1
              (keeps.made w.server w.alist.token path)))
  ]

  branch_unmarked :
      (P : S → Type 0) (s : S) (b : Bool) (x y : World S × Bool × Option String)
      → Makes P s (x.0, x.2)
      → Makes P s (y.0, y.2)
      → Makes P s ((if b then x else y).0, (if b then x else y).2)
  branch_unmarked P s true x y g h = g
  branch_unmarked P s false x y g h = h

  after_mkdir-Makes :
      (refreshed : Bool) (path : String) (s : S) (w : World S) (r : Checked Response)
      → Grows s w.server
      → (IsDone r → HasDir w.server path)
      → let m = after_mkdir srv refreshed path (w, r) in Makes (λ t. HasDir t path) s (m.0, m.2)
  unfolding after_mkdir
  after_mkdir-Makes refreshed path s w (refused e) g d =
      after-Makes (λ t. HasDir t path) s w.server _ g (fails-Makes (λ t. HasDir t path) w e)
  after_mkdir-Makes refreshed path s w (ok r) g d =
      let P : S → Type 0 = λ t. HasDir t path in
      let again = retry_mkdir srv path (get_token srv w) in
      let checked = check_made srv path (w, ok r) in
      branch_unmarked P s (is_unauthorized r.status && not refreshed) _
        (checked.0, refreshed, checked.1)
        (branch_unmarked P s w.alist.has_login (again.0, true, again.1)
          (w, refreshed, some "failed to create directory")
          (retry_mkdir-Makes path s (get_token srv w) (λ q h. get_token-Grows w q (g q h)))
          (after-Makes P s w.server _ g (fails-Makes P w "failed to create directory")))
        (after-Makes P s w.server _ g (check_made-Makes path w (ok r) d))

  make_segment-Makes :
      (w : World S) (refreshed : Bool) (path : String)
      → let m = make_segment srv w refreshed path in Makes (λ t. HasDir t path) w.server (m.0, m.2)
  unfolding make_segment mkdir_request
  make_segment-Makes w refreshed path = elim (Bool-cases (exists_path srv w path)) [
    | inl e ↦ rw e record {
      kept = λ q h. h;
      made = λ k. keeps.shown w.server w.alist.token path (unfold exists_path in e);
    }
    | inr e ↦
        let a = srv.mkdir w.server w.alist.token path in
        rw e (
          after_mkdir-Makes refreshed path w.server (record w { server = a.0 }) a.1
            (λ q h. keeps.mkdir_keeps w.server w.alist.token path q h)
            (keeps.made w.server w.alist.token path))
  ]

  abbrev HasAll : List String → S → Type 0
  HasAll ps t = All (HasDir t) ps

  mkdir_all-Makes :
      (w : World S) (refreshed : Bool) (paths : List String)
      → Makes (HasAll paths) w.server (mkdir_all srv w refreshed paths)
  unfolding mkdir_all
  mkdir_all-Makes w refreshed [] = record { kept = λ q h. h; made = λ k. tt }
  mkdir_all-Makes w refreshed (p ∷ ps) =
      let m = make_segment srv w refreshed p in
      next m.2 (make_segment-Makes w refreshed p) (mkdir_all-Makes m.0 m.1 ps)
    where
      next :
          (o : Option String)
          → Makes (λ t. HasDir t p) w.server ((make_segment srv w refreshed p).0, o)
          → let m = make_segment srv w refreshed p in
            Makes (HasAll ps) m.0.server (mkdir_all srv m.0 m.1 ps)
            → let m = make_segment srv w refreshed p in
              Makes (HasAll (p ∷ ps)) w.server (elim o as (λ x. World S × Option String) [
                | none ↦ mkdir_all srv m.0 m.1 ps
                | some e ↦ (m.0, some e)
              ])
      next none a b = record {
        kept = λ q h. b.kept q (a.kept q h);
        made = λ k. (b.kept p (a.made refl), b.made k);
      }
      next (some e) a b = record { kept = a.kept; made = λ k. absurd (cc k) }

  check_put-Makes :
      (path : String) (w : World S) (r : Checked Response)
      → (IsDone r → Stored w.server path)
      → Makes (λ t. Stored t path) w.server (check_put (w, r))
  unfolding check_put
  check_put-Makes path w (refused e) d = fails-Makes (λ t. Stored t path) w e
  check_put-Makes path w (ok r) d = elim (Bool-cases (r.status == 200 && r.code == 200)) [
    | inl e ↦ rw e record { kept = λ q h. h; made = λ k. d (ground (arith, e), ground (arith, e)) }
    | inr e ↦ rw e (fails-Makes (λ t. Stored t path) w "failed to save file to Alist")
  ]

  put_file-Makes :
      (path : String) (s : S) (w : World S)
      → Grows s w.server
      → Makes (λ t. Stored t path) s (check_put (put_file srv w path))
  unfolding put_file
  put_file-Makes path s w g =
      let a = srv.put w.server w.alist.token path in
      after-Makes (λ t. Stored t path) s a.0 _
        (λ q h. keeps.put_keeps w.server w.alist.token path q (g q h))
        (check_put-Makes path (record w { server = a.0 }) a.1
          (keeps.stored w.server w.alist.token path))

  replay-Makes :
      (u : Upload) (path : String) (s : S) (r : World S × Option String)
      → Grows s r.0.server
      → Makes (λ t. Stored t path) s (replay srv u path r)
  unfolding replay
  replay-Makes u path s (w, some e) g =
      after-Makes (λ t. Stored t path) s w.server _ g
        (fails-Makes (λ t. Stored t path) w "failed to refresh alist token")
  replay-Makes u path s (w, none) g =
      let P : S → Type 0 = λ t. Stored t path in
      branch-Makes P s u.seekable _ (w, some "streaming reader cannot be replayed for retry")
        (rewound u.rewind)
        (after-Makes P s w.server _ g
          (fails-Makes P w "streaming reader cannot be replayed for retry"))
    where
      rewound :
          (o : Option String)
          → Makes
              (λ t. Stored t path)
              s
              (elim o as (λ x. World S × Option String) [
                | some e ↦ (w, some "failed to rewind reader before retry")
                | none ↦ check_put (put_file srv w path)
              ])
      rewound none = put_file-Makes path s w g
      rewound (some e) =
          after-Makes (λ t. Stored t path) s w.server _ g
            (fails-Makes (λ t. Stored t path) w "failed to rewind reader before retry")

  after_put-Makes :
      (u : Upload) (path : String) (s : S) (w : World S) (r : Checked Response)
      → Grows s w.server
      → (IsDone r → Stored w.server path)
      → Makes (λ t. Stored t path) s (after_put srv u path (w, r))
  unfolding after_put
  after_put-Makes u path s w (refused e) g d =
      after-Makes (λ t. Stored t path) s w.server _ g (fails-Makes (λ t. Stored t path) w e)
  after_put-Makes u path s w (ok r) g d =
      let P : S → Type 0 = λ t. Stored t path in
      branch-Makes P s (is_unauthorized r.status) _ (check_put (w, ok r))
        (branch-Makes P s w.alist.has_login (replay srv u path (get_token srv w))
          (w, some "failed to save file to Alist")
          (replay-Makes u path s (get_token srv w) (λ q h. get_token-Grows w q (g q h)))
          (after-Makes P s w.server _ g (fails-Makes P w "failed to save file to Alist")))
        (after-Makes P s w.server _ g (check_put-Makes path w (ok r) d))

  all_kept : (ps : List String) (s t : S) → Grows s t → All (HasDir s) ps → All (HasDir t) ps
  all_kept [] s t g h = tt
  all_kept (p ∷ ps) s t g h = (g p h.0, all_kept ps s t g h.1)

  -- A save without an error has made the directories and stored the upload.
  pub save-Saved :
      (paths : Paths) (u : Upload) (w : World S) (path : String)
      → (save srv paths u w path).1 ≡ none
      → let c = candidate_of srv paths u w path in
        let t = (save srv paths u w path).0.server in All (HasDir t) (paths.parents c) × Stored t c
  unfolding save save_at put_file
  save-Saved paths u w path =
      let c = candidate_of srv paths u w path in
      saved (mkdir_all srv w false (paths.parents c)) (mkdir_all-Makes w false (paths.parents c))
    where
      saved :
          (r : World S × Option String)
          → let c = candidate_of srv paths u w path in
            Makes (HasAll (paths.parents c)) w.server r
            → (save_at srv u c r).1 ≡ none
            → All (HasDir (save_at srv u c r).0.server) (paths.parents c)
              × Stored (save_at srv u c r).0.server c
      saved (v, some e) m k = absurd (cc k)
      saved (v, none) m k =
          let c = candidate_of srv paths u w path in
          let a = srv.put v.server v.alist.token c in
          let x = record v { server = a.0 } in
          let d =
            after_put-Makes u c v.server x a.1 (λ q h. keeps.put_keeps v.server v.alist.token c q h)
              (keeps.stored v.server v.alist.token c) in
          (
            all_kept (paths.parents c) v.server (after_put srv u c (x, a.1)).0.server d.kept
                (m.made refl),
            d.made k,
          )
