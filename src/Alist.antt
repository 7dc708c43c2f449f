-- ===== src/Alist.antt =====
-- storage/alist/token.go and alist.go: the client of an Alist server, which logs in again when its token is
-- refused. What the server answers is a state machine, `Server`; a path's directories are the list
-- of its prefixes, and choosing, joining and splitting paths is `Paths`.
pub mod Stores
pub mod Recovery
mod Examples
use save_any_bot.Prelude.{
  Checked, ok, refused, ℕ, ◌-◌, ◌*◌, Bool, true, false, not, ◌&&◌, ◌||◌, String, Option, none, some,
  List, [], ◌∷◌, ltb, ◌==◌, if◌then◌else◌,
}

-- Nanoseconds.
abbrev pub min_token_refresh_interval : ℕ
min_token_refresh_interval = 30000000000

-- The answer to a request: the HTTP status, the code in the body and the message.
pub record Response : Type 0 where
  pub status : ℕ
  pub code : ℕ
  pub message : String

pub record LoginResponse : Type 0 where
  pub code : ℕ
  pub message : String
  pub token : String

-- Requests that a token permits, from a state of the server to the next; asking for a path and for
-- the time change nothing.
pub record Server (S : Type 0) : Type 0 where
  pub exists : S → String → String → Bool
  pub mkdir : S → String → String → S × Checked Response
  pub put : S → String → String → S × Checked Response
  pub login : S → S × Checked LoginResponse
  pub now : S → ℕ

pub record Alist : Type 0 where
  pub token : String
  pub last_login_at : Option ℕ
  pub has_login : Bool
  pub token_exp : ℕ

-- The client with the server.
pub record World (S : Type 0) : Type 0 where
  pub alist : Alist
  pub server : S

pub record Paths : Type 0 where
  pub choose : (String → Bool) → String → String
  pub join : String → String
  pub parents : String → List String

pub record Upload : Type 0 where
  pub overwrite : Bool
  pub seekable : Bool
  pub rewind : Option String

unfoldable pub token_refresh_window : Alist → ℕ
token_refresh_window a =
    let exp = a.token_exp * 1000000000 in
    if ltb 0 exp && ltb exp min_token_refresh_interval then exp else min_token_refresh_interval

unfoldable pub is_fresh : Alist → ℕ → Bool
unfolding token_refresh_window
is_fresh a now = elim a.last_login_at [
  | none ↦ false
  | some t ↦ ltb (now - t) (token_refresh_window a)
]

unfoldable pub is_unauthorized : ℕ → Bool
is_unauthorized status = status == 401 || status == 403

unfoldable pub check_put : {S : Type 0} → World S × Checked Response → World S × Option String
check_put (w, refused e) = (w, some e)
check_put (w, ok r) =
    if r.status == 200 && r.code == 200 then (w, none) else (w, some "failed to save file to Alist")

-- `Init` with a name and a password; its login must not keep the next one from being made.
unfoldable pub after_init : {S : Type 0} → World S × Option String → World S × Option String
after_init (w, some e) = (w, some "failed to login to Alist")
after_init (w, none) = (record w { alist = record w.alist { last_login_at = none } }, none)

module _ {S : Type 0} (srv : Server S) where
  unfoldable pub after_login : Alist → S × Checked LoginResponse → World S × Option String
  after_login a (s, refused e) = (record { alist = a; server = s }, some e)
  after_login a (s, ok r) =
      if r.code == 200
      then (
        record {
          alist = record a { token = r.token; last_login_at = some (srv.now s) };
          server = s;
        },
        none,
      )
      else (record { alist = a; server = s }, some "alist login failed")

  unfoldable pub fetch_token : World S → World S × Option String
  unfolding after_login
  fetch_token w =
      if w.alist.has_login
      then after_login w.alist (srv.login w.server)
      else (w, some "token-only alist storage cannot refresh credentials")

  unfoldable pub get_token : World S → World S × Option String
  unfolding fetch_token is_fresh
  get_token w = if is_fresh w.alist (srv.now w.server) then (w, none) else fetch_token w

  unfoldable pub exists_path : World S → String → Bool
  exists_path w path = srv.exists w.server w.alist.token path

  unfoldable pub mkdir_request : World S → String → World S × Checked Response
  mkdir_request w path =
      let r = srv.mkdir w.server w.alist.token path in (record w { server = r.0 }, r.1)

  unfoldable pub put_file : World S → String → World S × Checked Response
  put_file w path = let r = srv.put w.server w.alist.token path in (record w { server = r.0 }, r.1)

  -- The end of the loop's body: a directory that another upload has made is no error.
  unfoldable pub check_made : String → World S × Checked Response → World S × Option String
  unfolding exists_path
  check_made path (w, refused e) = (w, some e)
  check_made path (w, ok r) =
      if r.status == 200
      then (if r.code == 200 || exists_path w path
          then (w, none)
          else (w, some "failed to create directory"))
      else (w, some "failed to create directory")

  -- The second attempt, with a new token.
  unfoldable pub retry_mkdir : String → World S × Option String → World S × Option String
  unfolding exists_path mkdir_request check_made
  retry_mkdir path (w, some e) = (w, some "failed to refresh alist token")
  retry_mkdir path (w, none) =
      if exists_path w path then (w, none) else check_made path (mkdir_request w path)

  -- One segment that does not exist: the world, whether the token has been refreshed, and the error.
  unfoldable pub after_mkdir :
      Bool → String → World S × Checked Response → World S × Bool × Option String
  unfolding is_unauthorized get_token retry_mkdir check_made
  after_mkdir refreshed path (w, refused e) = (w, refreshed, some e)
  after_mkdir refreshed path (w, ok r) =
      if is_unauthorized r.status && not refreshed
      then (if w.alist.has_login
          then (let t = retry_mkdir path (get_token w) in (t.0, true, t.1))
          else (w, refreshed, some "failed to create directory"))
      else (let t = check_made path (w, ok r) in (t.0, refreshed, t.1))

  unfoldable pub make_segment : World S → Bool → String → World S × Bool × Option String
  unfolding exists_path mkdir_request after_mkdir
  make_segment w refreshed path =
      if exists_path w path
      then (w, refreshed, none)
      else after_mkdir refreshed path (mkdir_request w path)

  -- The loop over the prefixes of a directory.
  unfoldable pub mkdir_all : World S → Bool → List String → World S × Option String
  unfolding make_segment
  mkdir_all w refreshed [] = (w, none)
  mkdir_all w refreshed (p ∷ ps) =
      let m = make_segment w refreshed p in
      let rest = mkdir_all m.0 m.1 ps in elim m.2 [ none ↦ rest | some e ↦ (m.0, some e) ]

  unfoldable pub replay : Upload → String → World S × Option String → World S × Option String
  unfolding put_file check_put
  replay u path (w, some e) = (w, some "failed to refresh alist token")
  replay u path (w, none) =
      if u.seekable
      then elim u.rewind [
        | some e ↦ (w, some "failed to rewind reader before retry")
        | none ↦ check_put (put_file w path)
      ]
      else (w, some "streaming reader cannot be replayed for retry")

  unfoldable pub after_put : Upload → String → World S × Checked Response → World S × Option String
  unfolding is_unauthorized get_token replay check_put
  after_put u path (w, refused e) = (w, some e)
  after_put u path (w, ok r) =
      if is_unauthorized r.status
      then (if w.alist.has_login
          then replay u path (get_token w)
          else (w, some "failed to save file to Alist"))
      else check_put (w, ok r)

  unfoldable pub save_at : Upload → String → World S × Option String → World S × Option String
  unfolding put_file after_put
  save_at u path (w, some e) = (w, some "failed to create parent directories")
  save_at u path (w, none) = after_put u path (put_file w path)

  unfoldable pub candidate_of : Paths → Upload → World S → String → String
  unfolding exists_path
  candidate_of paths u w path =
      if u.overwrite then paths.join path else paths.choose (exists_path w) path

  unfoldable pub save : Paths → Upload → World S → String → World S × Option String
  unfolding candidate_of mkdir_all save_at
  save paths u w path =
      let c = candidate_of paths u w path in save_at u c (mkdir_all w false (paths.parents c))

  unfoldable pub init_login : World S → World S × Option String
  unfolding after_init get_token
  init_login w = after_init (get_token w)
