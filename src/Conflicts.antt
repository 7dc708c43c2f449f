-- ===== src/Conflicts.antt =====
-- client/bot/handlers/utils/shortcut/tftask.go, with conflictutil and pkg/tcbdata: how the files of a message become
-- a task, by the user's rules and the strategy for files that exist. The tables, the storages,
-- the joining of paths and the adding to the queue are `Env`; messages to the user are left out.
pub mod Accounts
mod Examples
use save_any_bot.Prelude.{
  Checked, ok, refused, and_then, ℕ, suc, Bool, true, false, not, ◌&&◌, ◌||◌, String, Option, none,
  some, List, [], ◌∷◌, ◌++◌, ltb, ◌==◌, str_eq, length, if◌then◌else◌,
}
use save_any_bot.Rules.{Rule, RuleInput, Applied, usable, need_new_for_album, apply_rule}

pub data Strategy : Type 0 where
  rename_files asks overwrites skips : Strategy

unfoldable pub strategy_of : String → Option Strategy
strategy_of s =
    if str_eq s "rename"
    then some rename_files
    else if str_eq s "ask"
    then some asks
    else if str_eq s "overwrite"
    then some overwrites
    else if str_eq s "skip"
    then some skips
    else none

unfoldable pub or_rename : Option Strategy → Strategy
or_rename none = rename_files
or_rename (some s) = s

unfoldable pub effective_strategy : Option String → Strategy
unfolding strategy_of or_rename
effective_strategy none = rename_files
effective_strategy (some s) = or_rename (strategy_of s)

unfoldable pub or_else : Option Strategy → Strategy → Strategy
or_else none s = s
or_else (some s) t = s

unfoldable pub resolve_strategy : Option String → String → Strategy
unfolding effective_strategy strategy_of or_else
resolve_strategy user override = or_else (strategy_of override) (effective_strategy user)

unfoldable pub looks : Strategy → Bool
looks asks = true
looks skips = true
looks rename_files = false
looks overwrites = false

unfoldable pub is_ask : Strategy → Bool
is_ask asks = true
is_ask skips = false
is_ask rename_files = false
is_ask overwrites = false

-- A file of a message, and the group of the message; 0 stands for no group.
pub record File : Type 0 where
  pub name : String
  pub group_id : ℕ

pub record User : Type 0 where
  pub strategy : String
  pub apply_rule : Bool
  pub rules : Option (List Rule)

-- Storages are numbers, of which `name_of` gives the names.
pub record Env : Type 0 where
  pub user : Option User
  pub compile : String → Option (String → Bool)
  pub to_bool : String → Option Bool
  pub new_input : File → Option RuleInput
  pub find_storage : String → Checked ℕ
  pub name_of : ℕ → String
  pub exists : ℕ → String → Bool
  pub join : String → String → String
  pub stem : String → String
  pub make_element : ℕ → String → File → Option String
  pub add_task : Option String

pub record Element : Type 0 where
  pub storage : ℕ
  pub path : String
  pub file : File

pub record AlbumFile : Type 0 where
  pub file : File
  pub storage : ℕ
  pub dir : String

pub record Album : Type 0 where
  pub group_id : ℕ
  pub files : List AlbumFile

-- The lists and the map of the loops; the map is in the order of its first keys.
pub record Sorting : Type 0 where
  pub elems : List Element
  pub skipped : List File
  pub conflicts : List Element
  pub albums : List Album

pub data Ending : Type 0 where
  fails : String → Ending
  prompts : List Element → Ending
  nothing_left : List File → Ending
  adds_file : Bool → Element → Ending
  adds_batch : Bool → List Element → List File → Ending

unfoldable pub add_to_albums : ℕ → AlbumFile → List Album → List Album
add_to_albums id f [] = record { group_id = id; files = f ∷ [] } ∷ []
add_to_albums id f (a ∷ as') =
    let rest = add_to_albums id f as' in
    if a.group_id == id then record a { files = a.files ++ f ∷ [] } ∷ as' else a ∷ rest

module _ (env : Env) where
  unfoldable pub create_element : Element → Sorting → Option String → Checked Sorting
  create_element e s none = ok (record s { elems = s.elems ++ e ∷ [] })
  create_element e s (some err) = refused err

  -- A file with its place: a conflict, a file to skip, or an element.
  unfoldable pub place : Strategy → Element → Sorting → Checked Sorting
  unfolding looks is_ask create_element
  place strategy e s =
      if looks strategy && env.exists e.storage e.path
      then (if is_ask strategy
          then ok (record s { conflicts = s.conflicts ++ e ∷ [] })
          else ok (record s { skipped = s.skipped ++ e.file ∷ [] }))
      else create_element e s (env.make_element e.storage e.path e.file)

  -- The rules of a user who uses them.
  unfoldable pub rules_of : User → Option (List Rule)
  rules_of u = if u.apply_rule then u.rules else none

  unfoldable pub matched_by : Option (List Rule) → File → Applied
  unfolding apply_rule
  matched_by none f = record { matched = false; storage_name = ""; dir_path = "" }
  matched_by (some rules) f = apply_rule env.compile env.to_bool rules (env.new_input f)

  -- The name of the storage and the directory for a file of a batch.
  unfoldable pub chosen_by : ℕ → String → Applied → String × String
  unfolding usable
  chosen_by stor dir a =
      if a.matched
      then (if usable a.storage_name then a.storage_name else env.name_of stor, a.dir_path)
      else (env.name_of stor, dir)

  unfoldable pub storage_named : ℕ → String → Checked ℕ
  storage_named stor name =
      if str_eq name (env.name_of stor) || str_eq name "" then ok stor else env.find_storage name

  -- A file whose rule asks for a new directory of its album.
  unfoldable pub keep_for_album : String → File → Sorting → ℕ → Sorting
  unfolding add_to_albums
  keep_for_album dir f s stor = if f.group_id == 0 then s else record s {
    albums = add_to_albums f.group_id (record { file = f; storage = stor; dir = dir }) s.albums;
  }

  unfoldable pub sort_in : Strategy → String → File → Sorting → String → ℕ → Checked Sorting
  unfolding place keep_for_album need_new_for_album
  sort_in strategy dir f s chosen st =
      if need_new_for_album chosen
      then ok (keep_for_album dir f s st)
      else place strategy (record { storage = st; path = env.join chosen f.name; file = f }) s

  unfoldable pub sort_matched :
      Strategy → ℕ → String → File → Sorting → String × String → Checked Sorting
  unfolding sort_in storage_named and_then
  sort_matched strategy stor dir f s (name, chosen) =
      and_then (storage_named stor name) λ st. sort_in strategy dir f s chosen st

  unfoldable pub sort_files :
      Strategy → Option (List Rule) → ℕ → String → List File → Sorting → Checked Sorting
  unfolding sort_matched chosen_by matched_by and_then
  sort_files strategy rules stor dir [] s = ok s
  sort_files strategy rules stor dir (f ∷ fs) s =
      and_then (sort_matched strategy stor dir f s (chosen_by stor dir (matched_by rules f)))
        λ t. sort_files strategy rules stor dir fs t

  -- The files of an album go to the storage of the first, in a directory named after it.
  unfoldable pub place_album : Strategy → ℕ → String → List AlbumFile → Sorting → Checked Sorting
  unfolding place and_then
  place_album strategy stor dir [] s = ok s
  place_album strategy stor dir (f ∷ fs) s =
      and_then
        (place strategy
          (record {
            storage = stor;
            path = env.join (env.join f.dir dir) f.file.name;
            file = f.file;
          })
          s)
        λ t. place_album strategy stor dir fs t

  -- An album of one file is passed over.
  unfoldable pub place_one : Strategy → List AlbumFile → Sorting → Checked Sorting
  unfolding place_album
  place_one strategy [] s = ok s
  place_one strategy (f ∷ []) s = ok s
  place_one strategy (f ∷ g ∷ fs) s =
      place_album strategy f.storage (env.stem f.file.name) (f ∷ g ∷ fs) s

  unfoldable pub place_albums : Strategy → List Album → Sorting → Checked Sorting
  unfolding place_one and_then
  place_albums strategy [] s = ok s
  place_albums strategy (a ∷ as') s =
      and_then (place_one strategy a.files s) λ t. place_albums strategy as' t

  unfoldable pub after_adding : Ending → Option String → Ending
  after_adding e none = e
  after_adding e (some err) = fails err

  unfoldable pub is_overwrite : Strategy → Bool
  is_overwrite overwrites = true
  is_overwrite asks = false
  is_overwrite skips = false
  is_overwrite rename_files = false

  unfoldable pub conclude : Strategy → Checked Sorting → Ending
  unfolding after_adding is_overwrite is_ask
  conclude strategy (refused e) = fails e
  conclude strategy (ok s) =
      if is_ask strategy && ltb 0 (length s.conflicts)
      then prompts s.conflicts
      else if ltb 0 (length s.elems)
      then after_adding (adds_batch (is_overwrite strategy) s.elems s.skipped) env.add_task
      else nothing_left s.skipped

  unfoldable pub sort_all : Strategy → Option (List Rule) → ℕ → String → List File → Checked Sorting
  unfolding sort_files place_albums and_then
  sort_all strategy rules stor dir files =
      and_then
        (sort_files strategy rules stor dir files
          (record { elems = []; skipped = []; conflicts = []; albums = [] }))
        λ s. place_albums strategy s.albums s

  unfoldable pub create_and_add_batch : ℕ → String → List File → String → Ending
  unfolding resolve_strategy conclude sort_all rules_of
  create_and_add_batch stor dir files override = elim env.user [
    | none ↦ fails "get user by chat ID"
    | some u ↦
        let strategy = resolve_strategy (some u.strategy) override in
        conclude strategy (sort_all strategy (rules_of u) stor dir files)
  ]

  -- The task for a single file.
  unfoldable pub add_single : Strategy → Element → Ending
  unfolding looks is_ask after_adding is_overwrite
  add_single strategy e =
      if looks strategy && env.exists e.storage e.path
      then (if is_ask strategy then prompts (e ∷ []) else nothing_left (e.file ∷ []))
      else elim (env.make_element e.storage e.path e.file) [
        | some err ↦ fails err
        | none ↦ after_adding (adds_file (is_overwrite strategy) e) env.add_task
      ]

  unfoldable pub with_storage : Strategy → String → File → Checked ℕ → Ending
  unfolding add_single
  with_storage strategy dir f (refused e) = fails e
  with_storage strategy dir f (ok st) =
      add_single strategy (record { storage = st; path = env.join dir f.name; file = f })

  -- A rule's directory that is not empty and a storage that is usable take the place of the user's.
  unfoldable pub single_matched : Strategy → ℕ → String → File → Applied → Ending
  unfolding with_storage usable
  single_matched strategy stor dir f a =
      with_storage strategy (if a.matched && not (str_eq a.dir_path "") then a.dir_path else dir) f
        (if a.matched && usable a.storage_name then env.find_storage a.storage_name else ok stor)

  unfoldable pub create_and_add_file : ℕ → String → File → String → Ending
  unfolding resolve_strategy single_matched matched_by rules_of
  create_and_add_file stor dir f override = elim env.user [
    | none ↦ fails "get user by chat ID"
    | some u ↦
        single_matched (resolve_strategy (some u.strategy) override) stor dir f
          (matched_by (rules_of u) f)
  ]
