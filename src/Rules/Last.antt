-- ===== src/Rules/Last.antt =====
-- Which rule `ApplyRule` of client/bot/handlers/utils/ruleutil/rule.go follows.
use save_any_bot.Prelude.{
  ◌≡◌, refl, ap, ◌∙◌, Bool, true, false, String, Option, some, List, [], ◌∷◌, ◌++◌, str_eq,
  if◌then◌else◌, All,
}
use save_any_bot.Rules.{Rule, RuleInput, Applied, rule_matches, apply_rules, apply_rule}

module _ (compile : String → Option (String → Bool)) (to_bool : String → Option Bool) where
  abbrev pub Fails : RuleInput → Rule → Type 0
  Fails input r = rule_matches compile to_bool input r ≡ false

  -- What a rule that is followed comes to: one without a storage and a directory matches nothing.
  unfoldable pub chosen_by : Rule → Applied
  chosen_by r =
      if str_eq r.storage_name ""
      then (if str_eq r.dir_path ""
          then record { matched = false; storage_name = ""; dir_path = "" }
          else record { matched = true; storage_name = r.storage_name; dir_path = r.dir_path })
      else record { matched = true; storage_name = r.storage_name; dir_path = r.dir_path }

  apply_rules-none :
      (input : RuleInput) (storage dir : String) (rs : List Rule)
      → All (Fails input) rs
      → apply_rules compile to_bool input storage dir rs
        ≡ apply_rules compile to_bool input storage dir []
  unfolding apply_rules
  apply_rules-none input storage dir [] h = refl
  apply_rules-none input storage dir (r ∷ rs) h =
      ap
        (λ b.
          apply_rules compile to_bool input (if b then r.storage_name else storage)
            (if b then r.dir_path else dir) rs)
        h.0
      ∙ apply_rules-none input storage dir rs h.1

  apply_rules-last :
      (input : RuleInput) (storage dir : String) (before : List Rule) (r : Rule) (later : List Rule)
      → rule_matches compile to_bool input r ≡ true
      → All (Fails input) later
      → apply_rules compile to_bool input storage dir (before ++ r ∷ later) ≡ chosen_by r
  unfolding apply_rules chosen_by
  apply_rules-last input storage dir [] r later h x =
      ap
        (λ b.
          apply_rules compile to_bool input (if b then r.storage_name else storage)
            (if b then r.dir_path else dir) later)
        h
      ∙ apply_rules-none input r.storage_name r.dir_path later x
  apply_rules-last input storage dir (q ∷ qs) r later h x =
      apply_rules-last input
        (if rule_matches compile to_bool input q then q.storage_name else storage)
        (if rule_matches compile to_bool input q then q.dir_path else dir) qs r later h x

  -- `ApplyRule` follows the last of the rules that match, storage and directory together, whatever
  -- the rules before it are, and whatever rules stand after it that do not match or are broken.
  pub apply_rule-last :
      (input : RuleInput) (before : List Rule) (r : Rule) (later : List Rule)
      → rule_matches compile to_bool input r ≡ true
      → All (Fails input) later
      → apply_rule compile to_bool (before ++ r ∷ later) (some input) ≡ chosen_by r
  unfolding apply_rule
  apply_rule-last input [] r later h x = apply_rules-last input "" "" [] r later h x
  apply_rule-last input (q ∷ qs) r later h x = apply_rules-last input "" "" (q ∷ qs) r later h x
