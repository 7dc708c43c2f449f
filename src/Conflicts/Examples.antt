-- ===== src/Conflicts/Examples.antt =====
-- Files of messages for client/bot/handlers/utils/shortcut/tftask.go.
use save_any_bot.Prelude.{
  refused, ℕ, ◌≡◌, refl, true, false, String, none, some, List, [], ◌∷◌, ◌==◌, str_eq,
}
use save_any_bot.Rules.{Rule}
use save_any_bot.Conflicts.{
  File, Env, Element, asks, sort_all, create_and_add_batch, create_and_add_file, prompts, adds_file,
  adds_batch, nothing_left,
}
use save_any_bot.Conflicts.Accounts.{IsAccounted, sort_all-IsAccounted}
use save_any_bot.Conflicts.Accounts.Placing.{Gives, IsReason}

abbrev albums_apart : List Rule
albums_apart =
    record {
      rule_type = "IS-ALBUM";
      data_text = "true";
      storage_name = "CHOSEN";
      dir_path = "NEW-FOR-ALBUM";
    }
    ∷ []

abbrev env : Env
env = record {
  user = some (record { strategy = "ask"; apply_rule = true; rules = some albums_apart });
  compile = λ r. none;
  to_bool = λ t. some (str_eq t "true");
  new_input = λ f. some (record { name = f.name; message = ""; grouped_id = f.group_id });
  find_storage = λ n. refused "no storage";
  name_of = λ n. "disk";
  exists = λ n q. str_eq q "old.jpg";
  join = λ d q. q;
  stem = λ q. q;
  make_element = λ n q f. none;
  add_task = none;
}

abbrev files : List File
files =
    record { name = "old.jpg"; group_id = 0 }
    ∷ record { name = "a.jpg"; group_id = 5 }
    ∷ record { name = "b.jpg"; group_id = 6 }
    ∷ record { name = "c.jpg"; group_id = 5 }
    ∷ []

abbrev element : String → ℕ → Element
element name id = record { storage = 1; path = name; file = record { name = name; group_id = id } }

sort_all-IsAccounted_example :
    Gives
      (IsReason env)
      (IsAccounted env (λ f. f.group_id == 5) asks (some albums_apart) 1 "in" files)
      (sort_all env asks (some albums_apart) 1 "in" files)
sort_all-IsAccounted_example =
    sort_all-IsAccounted env (λ f. f.group_id == 5) asks (some albums_apart) 1 "in" files

-- A file that is there makes the whole message wait for an answer.
batch_asks :
    create_and_add_batch env 1 "in" files ""
    ≡ prompts (
        record { storage = 1; path = "old.jpg"; file = record { name = "old.jpg"; group_id = 0 } }
        ∷ [])
unfolding create_and_add_batch
batch_asks = refl

-- With skip, the file of an album that has no other is not in the batch, nor among the skipped.
batch_skips :
    create_and_add_batch env 1 "in" files "skip"
    ≡ adds_batch false
        (element "a.jpg" 5 ∷ element "c.jpg" 5 ∷ [])
        (record { name = "old.jpg"; group_id = 0 } ∷ [])
unfolding create_and_add_batch
batch_skips = refl

file_skipped :
    create_and_add_file env 1 "in" (record { name = "old.jpg"; group_id = 0 }) "skip"
    ≡ nothing_left (record { name = "old.jpg"; group_id = 0 } ∷ [])
unfolding create_and_add_file
file_skipped = refl

file_overwritten :
    create_and_add_file env 1 "in" (record { name = "old.jpg"; group_id = 0 }) "overwrite"
    ≡ adds_file true (element "old.jpg" 0)
unfolding create_and_add_file
file_overwritten = refl
