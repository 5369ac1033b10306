-- ===== src/Quota/RuleTests.antt =====
-- A rule's window key and metric id at a request. "a" is 97, "b" 98, "c" 99, "v" 118 and "w" 119.
use polaris_cpp.Base.{
  ℕ, true, false, some, none, [], ◌∷◌, ◌≡◌, refl, arith, string_key, lookup, ℕ_discrete,
}
use polaris_cpp.Rule.MatchString.{Re2, MatchString, exact, regex, text, Metadata}
use polaris_cpp.Quota.RateLimitRule.{
  RateLimitRule, RateLimitWindowKey, is_match, get_window_key, get_metric_id, init_amount,
  init_report_config,
}
use polaris_cpp.Quota.RateLimitData.{sort_by_priority, match_rule, IsChosen, match_rule-IsChosen}
use polaris_cpp.Quota.RateLimitRule.MetricId.{labels_text, get_metric_id-get_window_key}

abbrev re : Re2
re = record { ok = λ p. true; partial_match = λ v p. true }

abbrev label : ℕ → MatchString
label c = record {
  type_ = exact;
  value_type_ = text;
  data_ = c ∷ [];
  regex_ = none;
  all_match = false;
}

abbrev pattern_label : MatchString
pattern_label = record {
  type_ = regex;
  value_type_ = text;
  data_ = 46 ∷ [];
  regex_ = some (46 ∷ []);
  all_match = false;
}

abbrev rule : RateLimitRule
rule = record {
  id_ = 49 ∷ [];
  priority_ = 3;
  disable_ = false;
  method_ = pattern_label;
  labels_ = (97 ∷ [], pattern_label) ∷ (98 ∷ [], label 118) ∷ (99 ∷ [], pattern_label) ∷ [];
}

abbrev request : Metadata
request = (97 ∷ [], 119 ∷ []) ∷ (98 ∷ [], 118 ∷ []) ∷ (99 ∷ [], 118 ∷ []) ∷ []

get_metric_id-get_window_key_example :
    (key : RateLimitWindowKey) × ((get_window_key rule (119 ∷ []) request ≡ some key)
      × (get_metric_id rule key ≡ 49 ∷ 35 ∷ 119 ∷ 35 ∷ labels_text rule.labels_ request []))
unfolding is_match lookup ℕ_discrete
get_metric_id-get_window_key_example =
    get_metric_id-get_window_key re rule (119 ∷ []) request refl (refl, (refl, (refl, tt)))
      (
        ((λ e. let bad : ⊥ = ground (arith, e) in bad), tt),
        (((λ e. let bad : ⊥ = ground (arith, e) in bad), tt), tt),
      )

-- "a:w|b:v|c:v".
text_of_labels :
    labels_text rule.labels_ request []
    ≡ 97 ∷ 58 ∷ 119 ∷ 124 ∷ 98 ∷ 58 ∷ 118 ∷ 124 ∷ 99 ∷ 58 ∷ 118 ∷ []
unfolding lookup ℕ_discrete
text_of_labels = refl

no_short_period :
    (init_amount (
      record {
        valid_duration = 999;
        max_amount = 100;
        precision = none;
        start_amount = none;
        min_amount = none;
      }
      ∷ [])).0
    ≡ false
unfolding init_amount
no_short_period = refl

interval_limited :
    init_report_config (some 100) (some 9000)
    ≡ some (record { interval_ = 5000; amount_percent_ = 100; enable_batch_ = true })
unfolding init_report_config
interval_limited = refl

-- The same rule under another id, with a lower number.
abbrev first_rule : RateLimitRule
first_rule = record rule { id_ = 50 ∷ []; priority_ = 1 }

match_rule-IsChosen_example :
    IsChosen re
      (119 ∷ [])
      request
      (rule ∷ first_rule ∷ [])
      (match_rule re (sort_by_priority (rule ∷ first_rule ∷ [])) (119 ∷ []) request)
match_rule-IsChosen_example = match_rule-IsChosen re (119 ∷ []) request (rule ∷ first_rule ∷ [])

lower_number_first :
    match_rule re (sort_by_priority (rule ∷ first_rule ∷ [])) (119 ∷ []) request ≡ some first_rule
unfolding match_rule sort_by_priority lookup ℕ_discrete
lower_number_first = refl
