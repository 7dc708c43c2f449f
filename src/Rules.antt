-- ===== src/Rules.antt =====
-- The rules that choose a storage and a directory for a file: pkg/rule and
-- client/bot/handlers/utils/ruleutil/rule.go. A regular expression is compiled to its test, or not,
-- by the library of them, and a text is read as a Boolean, or not, by a third library.
pub mod Last
mod Examples
use save_any_bot.Prelude.{
  ℕ, Bool, true, false, String, Option, none, some, List, [], ◌∷◌, ◌==◌, str_eq, if◌then◌else◌,
}

-- `database.Rule` without its owner.
pub record Rule : Type 0 where
  pub rule_type : String
  pub data_text : String
  pub storage_name : String
  pub dir_path : String

abbrev pub file_name_regex : String
file_name_regex = "FILENAME-REGEX"

abbrev pub message_regex : String
message_regex = "MESSAGE-REGEX"

abbrev pub is_album : String
is_album = "IS-ALBUM"

abbrev pub rule_stor_name_chosen : String
rule_stor_name_chosen = "CHOSEN"

abbrev pub rule_dir_path_new_for_album : String
rule_dir_path_new_for_album = "NEW-FOR-ALBUM"

pub record RuleInput : Type 0 where
  pub name : String
  pub message : String
  pub grouped_id : ℕ

pub record Applied : Type 0 where
  pub matched : Bool
  pub storage_name : String
  pub dir_path : String

unfoldable pub usable : String → Bool
usable m = if str_eq m "" then false else if str_eq m rule_stor_name_chosen then false else true

unfoldable pub need_new_for_album : String → Bool
need_new_for_album m = if str_eq m "" then false else str_eq m rule_dir_path_new_for_album

-- `Match` of a regular expression that may not compile.
unfoldable pub match_regex : Option (String → Bool) → String → Bool
match_regex none text = false
match_regex (some test) text = test text

same_bool : Bool → Bool → Bool
same_bool true b = b
same_bool false b = if b then false else true

-- `Match` of `RuleMediaType`, for data that is no Boolean as for false.
unfoldable pub match_album : Option Bool → Bool → Bool
unfolding same_bool
match_album none album = same_bool false album
match_album (some b) album = same_bool b album

module _ (compile : String → Option (String → Bool)) (to_bool : String → Option Bool) where
  -- The switch on the type of a rule.
  unfoldable pub rule_matches : RuleInput → Rule → Bool
  unfolding match_regex match_album
  rule_matches input r =
      if str_eq r.rule_type file_name_regex
      then match_regex (compile r.data_text) input.name
      else if str_eq r.rule_type message_regex
      then match_regex (compile r.data_text) input.message
      else if str_eq r.rule_type is_album
      then match_album (to_bool r.data_text) (if input.grouped_id == 0 then false else true)
      else false

  -- The loop, with the storage and the directory chosen so far.
  unfoldable pub apply_rules : RuleInput → String → String → List Rule → Applied
  unfolding rule_matches
  apply_rules input storage dir [] =
      if str_eq storage ""
      then (if str_eq dir ""
          then record { matched = false; storage_name = ""; dir_path = "" }
          else record { matched = true; storage_name = storage; dir_path = dir })
      else record { matched = true; storage_name = storage; dir_path = dir }
  apply_rules input storage dir (r ∷ rs) =
      apply_rules input (if rule_matches input r then r.storage_name else storage)
        (if rule_matches input r then r.dir_path else dir) rs

  -- `ApplyRule`, with the input if there is one.
  unfoldable pub apply_rule : List Rule → Option RuleInput → Applied
  unfolding apply_rules
  apply_rule rules none = record { matched = false; storage_name = ""; dir_path = "" }
  apply_rule [] (some input) = record { matched = false; storage_name = ""; dir_path = "" }
  apply_rule (r ∷ rs) (some input) = apply_rules input "" "" (r ∷ rs)
