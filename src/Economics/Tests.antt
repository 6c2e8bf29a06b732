-- ===== src/Economics/Tests.antt =====
-- Three rules, and the theorems on the choice and the evaluation at them. The pattern matcher is
-- instantiated by equality of texts.
use meta_pulse.Prelude.{
  ℕ, ◌≡◌, ◌⊎◌, refl, true, false, Bool, String, Option, none, some, List, [], ◌∷◌, In, arith,
}
use meta_pulse.Prelude.Int.{ℤ, pos, negsuc}
use meta_pulse.Prelude.Word.{IsInt64}
use meta_pulse.Prelude.Text.{text_eq, text_lt, is_blank}
use meta_pulse.Prelude.Sort.{sort_stable}
use meta_pulse.Prelude.Result.{ok, err}
use meta_pulse.Money.{overflow, multiply_bps, validate_bps}
use meta_pulse.Money.Bounds.{IsTruncated}
use meta_pulse.Economics.{
  Rule, before, specificity, matches, matching, select, evaluate, validate_each, validate_rules,
  version_mismatch,
}
use meta_pulse.Economics.Choice.{Fits, Chosen, select-Chosen}
use meta_pulse.Economics.Evaluation.{decides, evaluate_lem}
use meta_pulse.Economics.Pipeline.{select_evaluates}

abbrev same_text : String → String → Option Bool
same_text p s = some (text_eq p s)

abbrev rule : ℕ → String → ℤ → String → Option ℕ → Rule
rule id key priority pattern channel = record {
  id = id;
  key = key;
  priority = priority;
  model_pattern = pattern;
  channel_id = channel;
  eligible = true;
  multiplier_bps = pos 5000;
  config_version = "v1";
}

abbrev any : Rule
any = rule 1 "any" (pos 1) "" none

abbrev exact : Rule
exact = rule 2 "exact" (pos 1) "gpt" none

abbrev channel_rule : Rule
channel_rule = rule 3 "channel" (pos 1) "" (some 9)

abbrev rules : List Rule
rules = any ∷ exact ∷ channel_rule ∷ []

specific_wins : select same_text rules "gpt" 9 ≡ some channel_rule
unfolding select matching matches before specificity sort_stable text_lt is_blank
specific_wins = refl

wrong_version : validate_rules same_text rules "v2" ≡ err version_mismatch
unfolding validate_rules is_blank
wrong_version = refl

halved : evaluate (negsuc 6) any ≡ ok (decides any (negsuc 2))
unfolding evaluate validate_bps multiply_bps
halved = refl

select-Chosen_example :
    ((r : Rule) × (select same_text rules "gpt" 9 ≡ some r) × Chosen same_text "gpt" 9 rules r)
    ⊎ (((x : Rule) → In x rules → ¬ Fits same_text "gpt" 9 x)
        × (select same_text rules "gpt" 9 ≡ none))
select-Chosen_example = select-Chosen same_text "gpt" 9 rules

evaluate_lem_example :
    ((any.eligible ≡ false) × (evaluate (negsuc 6) any ≡ ok (decides any (pos 0))))
    ⊎ ((any.eligible ≡ true)
        × ((q : ℤ) × IsTruncated (negsuc 6) 5000 q
            × ((IsInt64 q × (evaluate (negsuc 6) any ≡ ok (decides any q)))
                ⊎ (¬ IsInt64 q × (evaluate (negsuc 6) any ≡ err overflow)))))
evaluate_lem_example = evaluate_lem (negsuc 6) any (omega arith) (omega arith)

right_version : validate_rules same_text rules "v1" ≡ ok tt
unfolding validate_rules validate_each validate_bps is_blank
right_version = refl

select_evaluates_example :
    (channel_rule.config_version ≡ "v1")
    × (((channel_rule.eligible ≡ false)
          × (evaluate (pos 7) channel_rule ≡ ok (decides channel_rule (pos 0))))
        ⊎ ((channel_rule.eligible ≡ true)
            × ((q : ℤ) × IsTruncated (pos 7) 5000 q
                × ((IsInt64 q × (evaluate (pos 7) channel_rule ≡ ok (decides channel_rule q)))
                    ⊎ (¬ IsInt64 q × (evaluate (pos 7) channel_rule ≡ err overflow))))))
select_evaluates_example =
    select_evaluates same_text rules "v1" "gpt" 9 (pos 7) channel_rule right_version specific_wins
