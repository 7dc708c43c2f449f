-- ===== src/Rules/Examples.antt =====
-- An example for the rules.
use save_any_bot.Prelude.{
  ◌≡◌, refl, Bool, true, false, String, Option, none, some, str_eq, if◌then◌else◌,
}
use save_any_bot.Rules.{Rule, RuleInput, rule_matches, file_name_regex, is_album}

abbrev whole_text : String → Option (String → Bool)
whole_text s = some (λ t. str_eq s t)

abbrev only_true : String → Option Bool
only_true s = if str_eq s "true" then some true else none

abbrev by_name : Rule
by_name = record {
  rule_type = file_name_regex;
  data_text = "cat.mp4";
  storage_name = "disk";
  dir_path = "cats";
}

abbrev albums : Rule
albums = record {
  rule_type = is_album;
  data_text = "true";
  storage_name = "CHOSEN";
  dir_path = "NEW-FOR-ALBUM";
}

abbrev cat : RuleInput
cat = record { name = "cat.mp4"; message = "a cat"; grouped_id = 0 }

by_name_matches : rule_matches whole_text only_true cat by_name ≡ true
unfolding rule_matches
by_name_matches = refl

albums_fail : rule_matches whole_text only_true cat albums ≡ false
unfolding rule_matches
albums_fail = refl
